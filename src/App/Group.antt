-- ===== src/App/Group.antt =====
-- The group of the device: the app actor passes the request of the status actor on to the keycloak
-- actor, and its answer back.
use go_gwiot.Prelude.{
  ◌≡◌, ◌≢◌, refl, sym, ap, ◌∙◌, true, ◌&&◌, ◌||◌, Option, none, some, List, [], ◌∷◌, ◌⊎◌, ◌↔◌, ok,
  arith,
}
use go_gwiot.Prelude.Bytes.{Bytes}
use go_gwiot.State.Value.{Fields}
use go_gwiot.Keyc
use go_gwiot.Keyc.{KeycloakActor, KeycloakOut, token, group_id_response, held_of}
use go_gwiot.Keyc.Answers.{Gives, receive-group_id_request}
use go_gwiot.App.{
  App, KeycloakReply, wait_error, answered, group_id, group_id_request, World, receive,
}

-- How the app's request ends. The keycloak actor sends no token for it.
abbrev pub reply_of : List KeycloakOut → KeycloakReply
reply_of (group_id_response g ∷ out) = answered g
reply_of _ = wait_error

reply_of-answered :
    (kw : Keyc.World) (act : KeycloakActor) (group : Bytes)
    → reply_of (Keyc.receive kw Keyc.group_id_request act).1 ≡ answered group
    → (Keyc.receive kw Keyc.group_id_request act).1 ≡ group_id_response group ∷ []
unfolding Keyc.receive
reply_of-answered kw act group e = ground arith

module _ (ms : Fields → Option Bytes) (me : List Fields → Option Bytes) where
  receive-answered :
      (w : World) (app : App) (group : Bytes)
      → (receive ms me w group_id_request app ≡ ok (app, group_id group ∷ []))
        ↔ ((app.pid_keycloak ≢ none) × (w.reply ≡ answered group))
  unfolding receive
  receive-answered w app group =
      (λ e. (λ n. ground arith, ground arith), λ (p, r). given app.pid_keycloak refl p r)
    where
      given :
          (o : Option Bytes)
          → app.pid_keycloak ≡ o
          → app.pid_keycloak ≢ none
          → w.reply ≡ answered group
          → receive ms me w group_id_request app ≡ ok (app, group_id group ∷ [])
      given none q p r = absurd (p q)
      given (some k) q p r = ground arith

  -- The status actor is told a group by the app actor exactly if the app actor knows the keycloak actor,
  -- and that one has or gets the server, a good token or a new source for one, and the user's
  -- information with this group under "group_name".
  pub receive-group :
      (w : World) (app : App) (kw : Keyc.World) (act : KeycloakActor) (group : Bytes)
      → w.reply ≡ reply_of (Keyc.receive kw Keyc.group_id_request act).1
      → (receive ms me w group_id_request app ≡ ok (app, group_id group ∷ [])) ↔ (
          (app.pid_keycloak ≢ none)
          × ((act.has_keyc || kw.server) ≡ true)
          × ((held_of kw act ≢ none) ⊎ ((kw.password_accepted && kw.sourced) ≡ true))
          × Gives kw group)
  receive-group w app kw act group r = (
    λ e.
        let (p, q) = (receive-answered w app group).0 e in
        let (k, s, g) =
          (receive-group_id_request kw act group).0 (reply_of-answered kw act group (sym r ∙ q)) in
        (p, k, s, g),
    λ (p, k, s, g).
        (receive-answered w app group).1
          (p, r ∙ ap reply_of ((receive-group_id_request kw act group).1 (k, s, g))),
  )
