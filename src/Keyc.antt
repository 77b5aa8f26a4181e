-- ===== src/Keyc.antt =====
-- The keycloak actor of internal/keyc/keyc-actor.go, with keycServer and tokenSorce of keycloak.go: it
-- answers requests for a token and for the group of the device. The clients of HTTP, OAuth 2 and
-- keycloak are libraries: what they answer is in `World`.
pub mod Answers
pub mod Sources
mod Examples
use go_gwiot.Prelude.{
  ℕ, Bool, true, false, ◌&&◌, ◌||◌, not, Option, none, some, List, [], ◌∷◌, ◌++◌, if◌then◌else◌,
}
use go_gwiot.Prelude.Bytes.{Bytes}
use go_gwiot.State.Value.{Value, Fields, get}

-- `*oauth2.Token`, with its time in nanoseconds since the zero time of Go.
pub record Token : Type 0 where
  pub access_token : Bytes
  pub expiry : ℕ

-- `httpContext` is made again for every request, since the test reads `httContext`, which is never
-- written; the HTTP client stays nil.
pub record KeycloakActor : Type 0 where
  pub username : Bytes
  pub password : Bytes
  pub has_token_source : Bool  -- `act.tokenSource != nil`
  pub has_keyc : Bool  -- `act.keyc != nil`

-- `NewKeycActor`
unfoldable pub new_keyc_actor : Bytes → Bytes → KeycloakActor
new_keyc_actor username password = record {
  username = username;
  password = password;
  has_token_source = false;
  has_keyc = false;
}

pub data KeycloakIn : Type 0 where
  started : KeycloakIn
  token_request : KeycloakIn
  group_id_request : KeycloakIn
  stopping : KeycloakIn
  restarting : KeycloakIn

-- What the sender of a request gets. A nil `*oauth2.Token` is `token none`.
pub data KeycloakOut : Type 0 where
  token : Option Token → KeycloakOut
  group_id_response : Bytes → KeycloakOut

-- What the world answers while one message is handled.
pub record World : Type 0 where
  pub held : Option Token  -- `act.tokenSource.Token()`, with no token on an error
  pub server : Bool  -- `keycloak.NewConfig` succeeds
  pub password_accepted : Bool  -- `keyc.TokenRequest` succeeds
  pub sourced : Bool  -- `keyc.TokenSource` is not nil
  pub user_info : Option Fields  -- `act.keyc.UserInfo`, `none` with an error
  pub formatted : Value → Bytes  -- `fmt.Sprintf("%v", …)`

-- `tokenSorce`: whether there is a new token source.
abbrev pub token_sorce : World → Bool
token_sorce w = w.password_accepted && w.sourced

-- `tokenRequest`, which only wraps the error.
abbrev pub token_request_of : World → Bool
token_request_of w = token_sorce w

-- `if act.keyc == nil { … }`: whether the server is there, and the state.
abbrev pub with_server : World → KeycloakActor → KeycloakActor
with_server w act = record act { has_keyc = act.has_keyc || w.server }

-- A token source is not there, or its token has run out and no other can be had: the actor asks for a
-- new source, and sends on the token that it has not got.
unfoldable pub new_source : World → KeycloakActor → KeycloakActor × List KeycloakOut
new_source w act =
    let act' = with_server w act in
    if not act'.has_keyc
    then (act', [])
    else if not (token_request_of w)
    then (act', [])
    else (record act' { has_token_source = true }, token none ∷ [])

abbrev pub held_of : World → KeycloakActor → Option Token
held_of w act = if act.has_token_source then w.held else none

unfoldable pub answer_token : World → KeycloakActor → KeycloakActor × List KeycloakOut
unfolding new_source
answer_token w act = elim (held_of w act) [
  | some t ↦ (act, token (some t) ∷ [])
  | none ↦ new_source w act
]

-- The token source for the group: the one that is there if its token is good, or a new one. An error
-- leaves none.
abbrev with_source : World → KeycloakActor → KeycloakActor
with_source w act = elim (held_of w act) [
  | some t ↦ act
  | none ↦ record act { has_token_source = token_request_of w }
]

abbrev pub group_of : World → List KeycloakOut
group_of w = elim w.user_info [
  | none ↦ []
  | some info ↦ elim (get info "group_name") [
    | none ↦ []
    | some v ↦ group_id_response (w.formatted v) ∷ []
  ]
]

unfoldable pub answer_group : World → KeycloakActor → KeycloakActor × List KeycloakOut
answer_group w act =
    let act' = with_server w act in
    if not act'.has_keyc
    then (act', [])
    else (let act'' = with_source w act' in
        if act''.has_token_source then (act'', group_of w) else (act'', []))

unfoldable pub receive : World → KeycloakIn → KeycloakActor → KeycloakActor × List KeycloakOut
unfolding answer_token answer_group
receive w started act = (act, [])
receive w token_request act = answer_token w act
receive w group_id_request act = answer_group w act
receive w stopping act = (act, [])
receive w restarting act = (act, [])
