-- ===== src/Keyc/Answers.antt =====
-- What the keycloak actor answers, and when it does not.
use go_gwiot.Prelude.{
  ◌≡◌, ◌≢◌, refl, ◌∙◌, true, false, ◌&&◌, ◌||◌, Option, none, some, [], ◌∷◌, ◌⊎◌, ◌↔◌, Bool-cases,
  Option-cases, inl, inr, arith,
}
use go_gwiot.Prelude.Bytes.{Bytes}
use go_gwiot.State.Value.{Value, Fields, get}
use go_gwiot.Keyc.{
  Token, KeycloakActor, token_request, group_id_request, token, group_id_response, World, receive,
  held_of, group_of, answer_token, answer_group,
}

-- There is no token source, or it has no good token.
abbrev pub HasNoToken : World → KeycloakActor → Type 0
HasNoToken w act = (act.has_token_source ≡ false) ⊎ (w.held ≡ none)

held_of-none : (w : World) (act : KeycloakActor) → held_of w act ≡ none → HasNoToken w act
held_of-none w act e = elim (Bool-cases act.has_token_source) [
  | inl yes_source ↦ inr (rw yes_source at e)
  | inr no_source ↦ inl no_source
]

held_of-HasNoToken : (w : World) (act : KeycloakActor) → HasNoToken w act → held_of w act ≡ none
held_of-HasNoToken w act (inl e) = rw e
held_of-HasNoToken w act (inr e) = ground (arith, e)

module _ (w : World) (act : KeycloakActor) where
  answer_token-nil :
      (answer_token w act).1 ≡ token none ∷ []
      → (held_of w act ≡ none)
        × ((act.has_keyc || w.server) ≡ true)
        × ((w.password_accepted && w.sourced) ≡ true)
  unfolding answer_token
  answer_token-nil e = (ground arith, ground arith, ground arith)

  answer_token-idle :
      held_of w act ≡ none
      → (act.has_keyc || w.server) ≡ true
      → (w.password_accepted && w.sourced) ≡ true
      → (answer_token w act).1 ≡ token none ∷ []
  unfolding answer_token
  answer_token-idle h k t = ground arith

  answer_token-source :
      (answer_token w act).1 ≡ token none ∷ [] → (answer_token w act).0.has_token_source ≡ true
  unfolding answer_token
  answer_token-source e = ground arith

answer_token-held :
    (w : World) (act : KeycloakActor) (t : Token)
    → act.has_token_source ≡ true
    → w.held ≡ some t
    → (answer_token w act).1 ≡ token (some t) ∷ []
unfolding answer_token
answer_token-held w act t s h = ground arith

-- A token source that has just been made answers the next request.
pub token_request-again :
    (w w' : World) (act : KeycloakActor) (t : Token)
    → (receive w token_request act).1 ≡ token none ∷ []
    → w'.held ≡ some t
    → (receive w' token_request (receive w token_request act).0).1 ≡ token (some t) ∷ []
unfolding receive
token_request-again w w' act t e h =
    answer_token-held w' (answer_token w act).0 t (answer_token-source w act e) h

-- A request for a token is answered by a token exactly if there is a token source with that token. It
-- is answered by nil exactly if there is none, the server is or becomes known, and the request with
-- the password gives a new source.
pub receive-token_request :
    (w : World) (act : KeycloakActor) (t : Token)
    → let out = (receive w token_request act).1 in
      ((out ≡ token (some t) ∷ []) ↔ ((act.has_token_source ≡ true) × (w.held ≡ some t)))
      × ((out ≡ token none ∷ []) ↔ (
          HasNoToken w act
          × ((act.has_keyc || w.server) ≡ true)
          × ((w.password_accepted && w.sourced) ≡ true)))
unfolding receive
receive-token_request w act t = (
  (λ e. (ground arith, ground arith), λ (s, h). answer_token-held w act t s h),
  (
    λ e. let (n, k, s) = answer_token-nil w act e in (held_of-none w act n, k, s),
    λ (n, k, s). answer_token-idle w act (held_of-HasNoToken w act n) k s,
  ),
)

-- The information of the user gives this group.
abbrev pub Gives : World → Bytes → Type 0
Gives w group =
    (info : Fields) × (v : Value) × (w.user_info ≡ some info)
    × (get info "group_name" ≡ some v)
    × (w.formatted v ≡ group)

group_of-Gives :
    (w : World) (group : Bytes) → (group_of w ≡ group_id_response group ∷ []) ↔ Gives w group
group_of-Gives w group = (λ e. found w.user_info refl e, λ (info, v, u, g, f). ground arith)
  where
    named :
        (info : Fields) (o : Option Value)
        → w.user_info ≡ some info
        → get info "group_name" ≡ o
        → group_of w ≡ group_id_response group ∷ []
        → Gives w group
    named info none u g e = ground arith
    named info (some v) u g e = (info, v, u, g, ground arith)

    found :
        (o : Option Fields)
        → w.user_info ≡ o
        → group_of w ≡ group_id_response group ∷ []
        → Gives w group
    found none u e = ground arith
    found (some info) u e = named info (get info "group_name") u refl e

module _ (w : World) (act : KeycloakActor) (group : Bytes) where
  answer_group-given :
      (answer_group w act).1 ≡ group_id_response group ∷ []
      → ((act.has_keyc || w.server) ≡ true)
        × ((held_of w act ≢ none) ⊎ ((w.password_accepted && w.sourced) ≡ true))
        × (group_of w ≡ group_id_response group ∷ [])
  unfolding answer_group
  answer_group-given e = (
    ground arith,
    elim (Option-cases (held_of w act)) [ inl n ↦ inr (ground arith) | inr (t, h) ↦ inl (λ n. cc) ],
    ground arith,
  )

  answer_group-sent :
      (act.has_keyc || w.server) ≡ true
      → (held_of w act ≢ none) ⊎ ((w.password_accepted && w.sourced) ≡ true)
      → (answer_group w act).1 ≡ group_of w
  unfolding answer_group
  answer_group-sent k (inl h) = elim (Option-cases (held_of w act)) [
    | inl n ↦ absurd (h n)
    | inr (t, e) ↦ ground arith
  ]
  answer_group-sent k (inr s) = ground arith

-- A request for the group is answered if and only if the server is or becomes known, there is a good
-- token or a new source for one, and the user's information can be had and has a "group_name"; the
-- answer is the text of its value. A request that is not answered leaves the sender to wait.
pub receive-group_id_request :
    (w : World) (act : KeycloakActor) (group : Bytes)
    → ((receive w group_id_request act).1 ≡ group_id_response group ∷ []) ↔ (
        ((act.has_keyc || w.server) ≡ true)
        × ((held_of w act ≢ none) ⊎ ((w.password_accepted && w.sourced) ≡ true))
        × Gives w group)
unfolding receive
receive-group_id_request w act group = (
  λ e. let (k, s, g) = answer_group-given w act group e in (k, s, (group_of-Gives w group).0 g),
  λ (k, s, g). answer_group-sent w act group k s ∙ (group_of-Gives w group).1 g,
)
