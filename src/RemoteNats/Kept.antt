-- ===== src/RemoteNats/Kept.antt =====
-- What the handling of a message leaves alone.
use go_gwiot.Prelude.{
  ◌≡◌, refl, ap, ◌∙◌, Bool, true, false, arith, inl, inr, Bool-cases, Outcome, ◌>>=◌, ok, panic,
  if◌then◌else◌, List, [],
}
use go_gwiot.Prelude.Bytes.{Bytes}
use go_gwiot.Remote.Prepare.{prepare_msg}
use go_gwiot.RemoteNats.{
  RemoteActor, World, RemoteIn, started, stopping_pointer, reconnect_remote, verify_replay,
  new_token, remote_msg2, stopping, stopped, restarting, RemoteOut, backup, send_data, after,
  connect, find_token, start, reconnect, tries, attempts_now, closed_first, after_send,
  is_connected, send_msg, after_outcome, after_connect,
}

-- The two states agree on the database and on the time of the last attempt to connect.
abbrev pub Agrees : RemoteActor → RemoteActor → Type 0
Agrees ps ps' = (ps'.has_db ≡ ps.has_db) × (ps'.last_reconnect ≡ ps.last_reconnect)

find_token-Agrees : (w : World) (ps : RemoteActor) → Agrees ps (find_token w ps).0
unfolding find_token
find_token-Agrees w ps = (ground arith, ground arith)

connect-Agrees :
    (w : World) (ps ps' : RemoteActor) (b : Bool) → connect w ps ≡ ok (ps', b) → Agrees ps ps'
unfolding connect
connect-Agrees w ps ps' b h =
    (ground (arith, (find_token-Agrees w ps).0), ground (arith, (find_token-Agrees w ps).1))

backup-Agrees : (w : World) (ps : RemoteActor) (content : Bytes) → Agrees ps (backup w ps content).0
unfolding backup
backup-Agrees w ps content = (ground arith, ground arith)

after_send-Agrees :
    (w : World) (ps : RemoteActor) (content : Bytes) (r : Bool × List RemoteOut)
    → Agrees ps (after_send w ps content r).0
unfolding after_send
after_send-Agrees w ps content (true, out) = (refl, refl)
after_send-Agrees w ps content (false, out) = backup-Agrees w ps content

send_data-Agrees :
    (w : World) (ps : RemoteActor) (content : Bytes) → Agrees ps (send_data w ps content).0
unfolding send_data
send_data-Agrees w ps content = elim (Bool-cases (is_connected w ps)) [
  | inl e ↦ rw e (after_send-Agrees w ps content (send_msg w ps content))
  | inr e ↦ rw e (backup-Agrees w ps content)
]

-- A connection under way, `o`, does not change what `Agrees` is about, whatever the handler makes of
-- the state after it, or of a panic.
carried :
    (w : World) (ps final : RemoteActor) (o : Outcome (RemoteActor × Bool))
    → connect w ps ≡ o
    → Agrees ps final
    → (out : RemoteActor × Bool → RemoteActor × List RemoteOut)
    → ((r : RemoteActor × Bool) → (out r).0 ≡ r.0)
    → Agrees ps (after_outcome final (o >>= λ r. ok (out r)))
carried w ps final panic e a out same = a
carried w ps final (ok (ps', b)) e a out same =
    let (d, l) = connect-Agrees w ps ps' b e in
    (
      ap (λ (q : RemoteActor). q.has_db) (same (ps', b)) ∙ d,
      ap (λ (q : RemoteActor). q.last_reconnect) (same (ps', b)) ∙ l,
    )

after_connect-state : (r : RemoteActor × Bool) → (after_connect r).0 ≡ r.0
after_connect-state (ps, true) = refl
after_connect-state (ps, false) = refl

after-reconnect :
    (w : World) (ps : RemoteActor) (b : Bool)
    → let ps' = record ps { last_reconnect = w.clock } in
      let final = after_outcome ps' (elim b [
        | true ↦ connect w ps' >>= λ done. ok (after_connect done)
        | false ↦ ok (ps, [])
      ]) in
      (final.has_db ≡ ps.has_db)
      × (final.last_reconnect ≡ (if b then w.clock else ps.last_reconnect))
after-reconnect w ps true =
    let ps' = record ps { last_reconnect = w.clock } in
    carried w ps' ps' (connect w ps') refl (refl, refl) after_connect after_connect-state
after-reconnect w ps false = (refl, refl)

after-remote_msg2 :
    (w : World) (ps : RemoteActor) (o : Outcome Bytes)
    → Agrees ps (after_outcome ps (o >>= λ content. ok (send_data w ps content)))
after-remote_msg2 w ps panic = (refl, refl)
after-remote_msg2 w ps (ok content) = send_data-Agrees w ps content

-- The handling of any message, panics included, leaves the database handle as it is, and sets the time
-- of the last attempt exactly if the message makes the actor try to connect again.
pub after-kept :
    (w : World) (msg : RemoteIn) (ps : RemoteActor)
    → ((after w msg ps).has_db ≡ ps.has_db)
      × ((after w msg ps).last_reconnect
          ≡ (if attempts_now w msg ps then w.clock else ps.last_reconnect))
unfolding after start reconnect
after-kept w started ps =
    let ps' = record ps { quit_open = true } in
    carried w ps' ps' (connect w ps') refl (refl, refl) (λ done. (done.0, closed_first w ps))
      (λ r. refl)
after-kept w stopping_pointer ps = (ground arith, ground arith)
after-kept w reconnect_remote ps = after-reconnect w ps (tries w ps)
after-kept w verify_replay ps = (refl, refl)
after-kept w (new_token t) ps = (refl, refl)
after-kept w (remote_msg2 msg) ps = after-remote_msg2 w ps (prepare_msg w.quoted_host msg)
after-kept w stopping ps = (refl, refl)
after-kept w stopped ps = (refl, refl)
after-kept w restarting ps = (refl, refl)
