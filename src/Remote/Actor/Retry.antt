-- ===== src/Remote/Actor/Retry.antt =====
-- How replays follow one another, and what the states that the remote actor reaches have in common.
use go_gwiot.Prelude.{
  ℕ, ◌+◌, ◌≤◌, ◌<◌, ◌≡◌, refl, sym, ap, ◌∙◌, Bool, true, false, ◌||◌, not, [], ◌∷◌, arith, All,
  Outcome, ok, ok-injective, if◌then◌else◌, length,
}
use mathlib.Core.Path.{subst}
use go_gwiot.State.Value.{pos}
use go_gwiot.Remote.Numbers.{since, int_lt}
use go_gwiot.Remote.Replay.{replay_rows}
use go_gwiot.Remote.Replay.Limit.{sends, IsSendable, replay_rows-limit, replay_rows-more}
use go_gwiot.Remote.Actor.{
  RemoteActor, RemoteIn, verify_retry, verify_replay, World, Output, receive, replay, ensure_open,
  setting, replay_start,
}

-- Six seconds or more after the time of the last retry
since-late :
    (now last : ℕ)
    → last + 6000000000 ≤ now
    → int_lt (since now (pos last)) (pos 6000000000) ≡ false
unfolding since int_lt
since-late now last h = ground arith

ensure_open-open :
    (w : World) (ps : RemoteActor)
    → ps.has_db ≡ true
    → ps.is_database_open ≡ true
    → ensure_open w ps ≡ ps
unfolding ensure_open
ensure_open-open w ps d o = rw (d, o) refl

replay-open :
    (w : World) (ps : RemoteActor)
    → ps.has_db ≡ true
    → ps.is_database_open ≡ true
    → let r = replay_rows (setting w ps) w.rows replay_start in
      replay w ps
      ≡ (record ps { retry_flag = r.retry_flag }, record { effects = r.effects; self_sent = [] })
unfolding replay ensure_open
replay-open w ps d o = rw (d, o) refl

is_due : (flag early : Bool) → flag ≡ true → early ≡ false → (not flag || early) ≡ false
is_due flag early f e = ground arith

verify_retry-again :
    (w : World) (ps : RemoteActor)
    → ps.retry_flag ≡ true
    → int_lt (since w.clock (pos ps.last_retry)) (pos 6000000000) ≡ false
    → receive w verify_retry ps ≡ ok (ps, record { effects = []; self_sent = verify_replay ∷ [] })
unfolding receive
verify_retry-again w ps f e =
    ap
      (λ (b : Bool).
        if◌then◌else◌ {A = Outcome (RemoteActor × Output)} b
          (ok (ps, record { effects = []; self_sent = [] }))
          (ok (ps, record { effects = []; self_sent = verify_replay ∷ [] })))
      (is_due ps.retry_flag (int_lt (since w.clock (pos ps.last_retry)) (pos 6000000000)) f e)

-- A replay by an actor that is connected, with an open database, and with more than 31 records that
-- the client acknowledges: it sends 31 of them at most, and the next check for a retry, six seconds
-- or more after the time of the last one, starts another replay.
pub receive-retry :
    (w w' : World) (ps ps' : RemoteActor) (out : Output)
    → ps.has_db ≡ true
    → ps.is_database_open ≡ true
    → ps.is_connected ≡ true
    → All (IsSendable (setting w ps)) w.rows
    → 31 < length w.rows
    → ps.last_retry + 6000000000 ≤ w'.clock
    → receive w verify_replay ps ≡ ok (ps', out)
    → (sends out.effects ≤ 31)
      × (receive w' verify_retry ps'
          ≡ ok (ps', record { effects = []; self_sent = verify_replay ∷ [] }))
unfolding receive
receive-retry w w' ps ps' out d o c a l h e =
    let r = replay_rows (setting w ps) w.rows replay_start in
    let done = sym (ok-injective e) ∙ replay-open w ps d o in
    let flag : ps'.retry_flag ≡ true =
      ap (λ (x : RemoteActor × Output). x.0.retry_flag) done
      ∙ replay_rows-more (setting w ps) w.rows replay_start c a (omega arith) (omega (arith, l)) in
    let last : ps'.last_retry ≡ ps.last_retry =
      ap (λ (x : RemoteActor × Output). x.0.last_retry) done in
    let late : int_lt (since w'.clock (pos ps'.last_retry)) (pos 6000000000) ≡ false =
      since-late w'.clock ps'.last_retry (omega (arith, last, h)) in
    (
      subst (λ es. sends es ≤ 31) (sym (ap (λ (x : RemoteActor × Output). x.1.effects) done))
          (replay_rows-limit (setting w ps) w.rows replay_start (omega arith) (omega arith)),
      verify_retry-again w' ps' flag late,
    )

-- The states that an actor reaches from a state, whatever messages arrive in whatever order.
pub data Reach (s : RemoteActor) : RemoteActor → Type 0 where
  here : Reach s s
  next :
      {t : RemoteActor}
      → Reach s t
      → (w : World) (m : RemoteIn) (t' : RemoteActor) (out : Output) → receive w m t ≡ ok (t', out)
      → Reach s t'

receive-connected :
    (w : World) (ps ps' : RemoteActor) (m : RemoteIn) (out : Output)
    → receive w m ps ≡ ok (ps', out)
    → ps.is_connected ≡ true
    → ps'.is_connected ≡ true
unfolding receive
receive-connected w ps ps' m out h c = ground arith

-- Once the actor counts as connected it does so for ever, whatever messages come: it never learns
-- that the client has lost its connection, and goes on offering messages to it.
pub Reach-connected :
    {s t : RemoteActor} → Reach s t → s.is_connected ≡ true → t.is_connected ≡ true
Reach-connected here c = c
Reach-connected (next {t} r w m t' out h) c = receive-connected w t t' m out h (Reach-connected r c)
