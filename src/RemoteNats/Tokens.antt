-- ===== src/RemoteNats/Tokens.antt =====
-- The remote actor over NATS together with the keycloak actor that gives it its token.
use go_gwiot.Prelude.{
  ◌+◌, ◌<◌, ◌≡◌, refl, sym, ap, ◌∙◌, true, false, ◌&&◌, none, some, List, [], ◌∷◌, arith, ok, ◌>>=◌,
  ◌⊎◌, inl, inr, if◌then◌else◌,
}
use go_gwiot.Keyc
use go_gwiot.Keyc.{KeycloakActor, KeycloakOut, token, group_id_response, token_request, Token}
use go_gwiot.Keyc.Answers.{token_request-again}
use go_gwiot.RemoteNats.{
  RemoteActor, World, TokenReply, no_reply, token_reply, other_reply, address, started,
  reconnect_remote, find_token, connect, receive, closed_first, self_verify_replay, start,
  reconnect,
}

-- What the request for a token ends with, by what the keycloak actor sends: the first message counts,
-- and without one the wait ends with an error.
abbrev pub reply_of : List KeycloakOut → TokenReply
reply_of [] = no_reply
reply_of (token t ∷ out) = token_reply t
reply_of (group_id_response g ∷ out) = other_reply

-- A keycloak actor that has no token source never answers with a token.
reply_of-no_source :
    (kw : Keyc.World) (act : KeycloakActor) (t : Token)
    → act.has_token_source ≡ false
    → reply_of (Keyc.receive kw token_request act).1 ≡ token_reply (some t)
    → ⊥
unfolding Keyc.receive
reply_of-no_source kw act t s e = ground arith

without_token :
    (r : TokenReply)
    → ((t : Token) → r ≡ token_reply (some t) → ⊥)
    → (r ≡ no_reply) ⊎ (r ≡ other_reply) ⊎ (r ≡ token_reply none)
without_token no_reply h = inl refl
without_token other_reply h = inr (inl refl)
without_token (token_reply none) h = inr (inr refl)
without_token (token_reply (some t)) h = absurd (h t refl)

find_token-nil :
    (w : World) (ps : RemoteActor)
    → ps.token ≡ none
    → ((t : Token) → w.reply ≡ token_reply (some t) → ⊥)
    → ((find_token w ps).0.token ≡ none)
      × ((find_token w ps).0.has_conn ≡ ps.has_conn)
      × ((find_token w ps).1 ≡ false)
unfolding find_token
find_token-nil w ps n h = elim (without_token w.reply h) [
  | inl e ↦ (ground arith, ground arith, ground arith)
  | inr (inl e) ↦ (ground arith, ground arith, ground arith)
  | inr (inr e) ↦ (ground arith, ground arith, ground arith)
]

connect-nil :
    (w : World) (ps : RemoteActor)
    → ps.token ≡ none
    → ((t : Token) → w.reply ≡ token_reply (some t) → ⊥)
    → w.has_keycloak_url ≡ true
    → connect w ps ≡ ok ((find_token w ps).0, false)
unfolding connect
connect-nil w ps n h u = ground (arith, (find_token-nil w ps n h).2)

find_token-asked :
    (w : World) (ps : RemoteActor) (t : Token)
    → ps.token ≡ none
    → w.address_reply ≡ address
    → w.reply ≡ token_reply (some t)
    → find_token w ps ≡ (record ps { token = some t }, true)
unfolding find_token
find_token-asked w ps t n a r = ground arith

connect-asked :
    (w : World) (ps : RemoteActor) (t : Token)
    → ps.token ≡ none
    → w.address_reply ≡ address
    → w.reply ≡ token_reply (some t)
    → w.has_keycloak_url ≡ true
    → w.connects ≡ true
    → connect w ps ≡ ok (record ps { token = some t; has_conn = true }, true)
unfolding connect
connect-asked w ps t n a r u s = ground (arith, find_token-asked w ps t n a r)

-- With a keycloak server configured, the first connection of the remote actor over NATS fails. It starts
-- without a token, and a keycloak actor that has no token source yet answers its request with nil or
-- not at all, whatever the servers and the network do. The actor is left without a token, and with the
-- connection that it had, which it closed if it was open.
pub start-no_source :
    (kw : Keyc.World) (act : KeycloakActor) (w : World) (ps : RemoteActor)
    → act.has_token_source ≡ false
    → ps.token ≡ none
    → w.has_keycloak_url ≡ true
    → w.reply ≡ reply_of (Keyc.receive kw token_request act).1
    → (ps' : RemoteActor) × (receive w started ps ≡ ok (ps', closed_first w ps))
      × (ps'.token ≡ none)
      × (ps'.has_conn ≡ ps.has_conn)
unfolding receive start
start-no_source kw act w ps s n u r =
    let ps' = record ps { quit_open = true } in
    let no_token = λ (t : Token) (e : w.reply ≡ token_reply (some t)).
      reply_of-no_source kw act t s (sym r ∙ e) in
    let nil = find_token-nil w ps' n no_token in
    (
      (find_token w ps').0,
      ap (λ o. o >>= λ done. ok (done.0, closed_first w ps)) (connect-nil w ps' n no_token u),
      nil.0,
      nil.1,
    )

-- After the keycloak actor has answered a request for a token with nil, an attempt to connect of a remote
-- actor without a token, with a keycloak server configured, that `reconnectRemote` leads to gets through:
-- with no open connection, the last attempt more than 30 seconds ago, and the address, the token of
-- the keycloak actor's new source and the NATS server at hand, the actor ends with a connection and
-- that token. Unless the replay is disabled it sends itself `verifyReplay`.
pub reconnect-sourced :
    (kw kw' : Keyc.World) (act : KeycloakActor) (w : World) (ps : RemoteActor) (t : Token)
    → (Keyc.receive kw token_request act).1 ≡ token none ∷ []
    → kw'.held ≡ some t
    → ps.token ≡ none
    → (ps.has_conn && w.is_connected) ≡ false
    → ps.last_reconnect + 30000000000 < w.clock
    → w.has_keycloak_url ≡ true
    → w.address_reply ≡ address
    → w.reply ≡ reply_of (Keyc.receive kw' token_request (Keyc.receive kw token_request act).0).1
    → w.connects ≡ true
    → receive w reconnect_remote ps
      ≡ ok (
        record ps { has_conn = true; token = some t; last_reconnect = w.clock },
        if ps.disable_replay then [] else self_verify_replay ∷ [],
      )
unfolding receive reconnect
reconnect-sourced kw kw' act w ps t first held n c o u a r s =
    let ps' = record ps { last_reconnect = w.clock } in
    let reply : w.reply ≡ token_reply (some t) =
      r ∙ ap reply_of (token_request-again kw kw' act t first held) in
    let done = connect-asked w ps' t n a reply u s in ground arith
