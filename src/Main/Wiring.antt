-- ===== src/Main/Wiring.antt =====
-- What the flags mean for the remote actor that main makes.
use go_gwiot.Prelude.{
  ◌≡◌, refl, sym, ap, ◌∙◌, Bool, true, false, not, some, List, [], ◌∷◌, ok, panic, >>=-eq-ok,
  ok-injective, All, arith, if◌then◌else◌,
}
use mathlib.Core.Path.{subst}
use go_gwiot.Prelude.Bytes.{Bytes}
use go_gwiot.State.Value.{pos}
use go_gwiot.Remote.Prepare.{RemoteMsg2, prepare_msg}
use go_gwiot.Remote.Replay.{is_positive, Effect, send_data}
use go_gwiot.Remote.Actor as Remote
use go_gwiot.Remote.Actor.{
  RemoteActor, RemoteIn, World, Output, started, stopping, verify_retry, reconnect, verify_replay,
  remote_msg2, stopped, restarting, receive, send_msg, backup, ensure_open, replay,
}
use go_gwiot.RemoteMqtt
use go_gwiot.Main.{Flags, mqtt, main}

-- The states that an actor comes to by messages. A panic may leave any of the fields but the flags
-- changed, before the actor starts again.
pub data Reach (ps : RemoteActor) : RemoteActor → Type 0 where
  here : Reach ps ps
  next :
      {s s' : RemoteActor} (w : World) (msg : RemoteIn) (out : Output)
      → Reach ps s
      → receive w msg s ≡ ok (s', out)
      → Reach ps s'
  again :
      {s s' : RemoteActor} (w : World) (msg : RemoteIn)
      → Reach ps s
      → receive w msg s ≡ panic
      → s'.disable_replay ≡ s.disable_replay
      → Reach ps s'

ensure_open-disable_replay :
    (w : World) (s : RemoteActor) → (ensure_open w s).disable_replay ≡ s.disable_replay
unfolding ensure_open
ensure_open-disable_replay w s = ground arith

replay-disable_replay :
    (w : World) (s : RemoteActor) → (replay w s).0.disable_replay ≡ s.disable_replay
unfolding replay
replay-disable_replay w s = ground arith

backup-disable_replay :
    (w : World) (content : Bytes) (tried : List Effect) (s : RemoteActor)
    → (backup w content tried s).0.disable_replay ≡ s.disable_replay
unfolding backup
backup-disable_replay w content tried s = ground arith

send_msg-disable_replay :
    (w : World) (content : Bytes) (s : RemoteActor)
    → (send_msg w content s).0.disable_replay ≡ s.disable_replay
unfolding send_msg
send_msg-disable_replay w content s = ground arith

receive-disable_replay :
    (w : World) (msg : RemoteIn) (s s' : RemoteActor) (out : Output)
    → receive w msg s ≡ ok (s', out)
    → s'.disable_replay ≡ s.disable_replay
unfolding receive
receive-disable_replay w started s s' out h = ground arith
receive-disable_replay w stopping s s' out h = ground arith
receive-disable_replay w verify_retry s s' out h = ground arith
receive-disable_replay w reconnect s s' out h = ground arith
receive-disable_replay w verify_replay s s' out h = ground (arith, replay-disable_replay w s)
receive-disable_replay w (remote_msg2 msg) s s' out h =
    let (content, e, r) = >>=-eq-ok (prepare_msg w.quoted_host msg) _ h in
    sym (ap (λ (x : RemoteActor × Output). x.0.disable_replay) (ok-injective r))
    ∙ send_msg-disable_replay w content s
receive-disable_replay w stopped s s' out h = ground arith
receive-disable_replay w restarting s s' out h = ground arith

Reach-disable_replay : {ps s : RemoteActor} → Reach ps s → s.disable_replay ≡ ps.disable_replay
Reach-disable_replay here = refl
Reach-disable_replay (next {s} {s'} w msg out r h) =
    receive-disable_replay w msg s s' out h ∙ Reach-disable_replay r
Reach-disable_replay (again w msg r h e) = e ∙ Reach-disable_replay r

-- Nothing is written to the database.
abbrev pub IsUnstored : Effect → Type 0
IsUnstored (send_data content reply) = Unit
IsUnstored _ = ⊥

backup-disabled :
    (w : World) (content : Bytes) (tried : List Effect) (s : RemoteActor)
    → s.disable_replay ≡ true
    → (backup w content tried s).1.effects ≡ tried
unfolding backup
backup-disabled w content tried s d = ground (arith, ensure_open-disable_replay w s)

send_msg-IsUnstored :
    (w : World) (content : Bytes) (s : RemoteActor)
    → s.disable_replay ≡ true
    → All IsUnstored (send_msg w content s).1.effects
unfolding send_msg
send_msg-IsUnstored w content s d = stored s.is_connected (Remote.is_request_error w.reply)
  where
    unstored :
        (tried : List Effect)
        → All IsUnstored tried
        → All IsUnstored (backup w content tried s).1.effects
    unstored tried a = subst (All IsUnstored) (sym (backup-disabled w content tried s d)) a

    stored :
        (c e : Bool)
        → All IsUnstored
            (if not c
              then backup w content [] s
              else if e
              then backup w content (send_data content w.reply ∷ []) s
              else (
                s,
                record { effects = send_data content w.reply ∷ []; self_sent = [] },
              )).1.effects
    stored false e = unstored [] tt
    stored true true = unstored (send_data content w.reply ∷ []) (tt, tt)
    stored true false = (tt, tt)

-- When main makes the remote actor with an MQTT client, the flag `version` is not set, nor `isnats`. The
-- client is a new one with the JWT configuration and the flag `test`; the actor's replay is disabled
-- exactly if the flag `disableRetransmission` is set, and its days are those of the flag `retryDays`,
-- with 0 for a negative number.
pub main-mqtt :
    (f : Flags) (client : RemoteMqtt.RemoteActor) (ps : RemoteActor)
    → main f ≡ some (mqtt client ps)
    → (f.version ≡ false)
      × (f.isnats ≡ false)
      × (client ≡ RemoteMqtt.new_remote f.test true)
      × (ps.disable_replay ≡ f.disable_retransmission)
      × (ps.retry_days ≡ (if is_positive f.retry_days then f.retry_days else pos 0))
unfolding main Remote.disable_replay Remote.retry_days_replay Remote.new_remote
main-mqtt f client ps h = (ground arith, ground arith, ground arith, ground arith, ground arith)

-- With the flag `disableRetransmission`, the remote actor that main makes with an MQTT client stores no
-- message that it has to send: whatever it has handled before, panics included, a message that it handles
-- without a panic leads to no write to the database, also when it cannot be sent.
pub main-IsUnstored :
    (f : Flags) (client : RemoteMqtt.RemoteActor) (ps s s' : RemoteActor) (w : World)
    (msg : RemoteMsg2) (out : Output)
    → main f ≡ some (mqtt client ps)
    → f.disable_retransmission ≡ true
    → Reach ps s
    → receive w (remote_msg2 msg) s ≡ ok (s', out)
    → All IsUnstored out.effects
unfolding receive
main-IsUnstored f client ps s s' w msg out m d r h =
    let off = Reach-disable_replay r ∙ (main-mqtt f client ps m).3 ∙ d in
    let (content, e, sent) = >>=-eq-ok (prepare_msg w.quoted_host msg) _ h in
    subst (λ (x : RemoteActor × Output). All IsUnstored x.1.effects) (ok-injective sent)
      (send_msg-IsUnstored w content s off)
