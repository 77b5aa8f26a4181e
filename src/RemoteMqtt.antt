-- ===== src/RemoteMqtt.antt =====
-- The MQTT client of the platform (internal/remote-mqtt): remote-actor.go, and sendMSG of
-- client-mqtt.go. The client that the remote actor spawns is this one.
pub mod Sending
pub mod Connecting
pub mod Lost
pub mod Client
mod Examples
use go_gwiot.Prelude.{
  ℕ, zero, suc, Bool, true, false, ◌&&◌, ◌||◌, not, Option, none, some, List, [], ◌∷◌, ◌++◌,
  if◌then◌else◌,
}
use go_gwiot.Prelude.Bytes.{Bytes, ascii}
use go_gwiot.State.Value.{pos}
use go_gwiot.Remote.Numbers.{since, int_lt}

-- `retryFlag` and `lastRetry` are never written. The tokens and the client itself are not looked into.
pub record RemoteActor : Type 0 where
  pub has_client : Bool  -- `ps.client != nil`
  pub has_token_source : Bool
  pub last_retry : ℕ
  pub has_jwt_conf : Bool
  pub has_cancel : Bool
  pub test : Bool
  pub retry_flag : Bool

-- `NewRemote`
unfoldable pub new_remote : Bool → Bool → RemoteActor
new_remote test has_conf = record {
  has_client = false;
  has_token_source = false;
  last_retry = 0;
  has_jwt_conf = has_conf;
  has_cancel = false;
  test = test;
  retry_flag = false;
}

-- How one `tk.WaitTimeout(300 * time.Millisecond)` ends, with `tk.Error()`.
pub data Wait : Type 0 where
  pending : Wait
  token_error : Wait
  published : Wait

pub data RemoteIn : Type 0 where
  started : RemoteIn
  stopping : RemoteIn
  tick : RemoteIn
  verify_retry : RemoteIn
  reconnect_remote : RemoteIn
  send_data : Bytes → RemoteIn
  stopped : RemoteIn
  restarting : RemoteIn

-- What the actor does: it publishes, answers, and sends to the parent and to itself.
pub data RemoteOut : Type 0 where
  publish : Bytes → Bytes → RemoteOut  -- topic, data
  respond_ack : RemoteOut
  respond_error : RemoteOut
  request_reconnect : RemoteOut
  self_reconnect : RemoteOut
  self_verify_replay : RemoteOut
  disconnect : RemoteOut

-- What the world answers while one message is handled.
pub record World : Type 0 where
  pub has_parent : Bool
  pub has_sender : Bool
  pub clock : ℕ
  pub hostname : Bytes
  pub is_connection_open : Bool
  pub kept_token : Bool  -- `ps.tokenSource.Token()` succeeds
  pub new_token_source : Bool  -- `TokenSource(…)` succeeds
  pub new_token : Bool  -- and `tks.Token()` on it
  pub connects : Bool  -- `connect(ps.client)` succeeds
  pub waits : ℕ → Wait

-- The loop of `sendMSG`: `rounds` rounds are left, and this is round `i`.
unfoldable pub wait_token : ℕ → ℕ → (ℕ → Wait) → Bool
wait_token zero i waits = false
wait_token (suc rounds) i waits =
    let rest = wait_token rounds (suc i) waits in
    elim (waits i) [ pending ↦ rest | token_error ↦ false | published ↦ true ]

-- `remoteQueueEvents` and `remoteQueueEventsTest`
abbrev pub topic_of : World → Bool → Bytes
topic_of w true = ascii "TEST/" ++ w.hostname
topic_of w false = ascii "/devices/" ++ w.hostname ++ ascii "/events"

-- `sendMSG`: whether it returns no error, and what it publishes.
unfoldable pub send_msg : World → RemoteActor → Bytes → Bool × List RemoteOut
unfolding wait_token
send_msg w ps content =
    if not ps.has_client || not w.is_connection_open
    then (false, [])
    else (wait_token 10 0 w.waits, publish (topic_of w ps.test) content ∷ [])

-- What a connection leads to: `connect`, and the news to the parent.
abbrev pub connected : World → List RemoteOut
connected w = if w.has_parent then request_reconnect ∷ [] else []

start : World → RemoteActor → RemoteActor × List RemoteOut
start w ps =
    let ps' = record ps { has_cancel = true } in
    if ps.has_jwt_conf && not (w.new_token_source && w.new_token) then (ps', []) else (
      record ps' { has_client = true; has_token_source = ps.has_jwt_conf || ps.has_token_source },
      if w.connects then connected w else [],
    )

-- `ps.client.Disconnect(300)` after an error, if there is a client
abbrev dropped : RemoteActor → RemoteActor × List RemoteOut
dropped ps = (ps, if ps.has_client then disconnect ∷ [] else [])

abbrev with_client : World → RemoteActor → RemoteActor × List RemoteOut
with_client w ps =
    let ps' = record ps { has_client = true } in
    if w.connects then (ps', connected w) else (ps', disconnect ∷ [])

unfoldable pub reconnect : World → RemoteActor → RemoteActor × List RemoteOut
reconnect w ps =
    if ps.has_client && w.is_connection_open
    then (ps, [])
    else if not ps.has_jwt_conf
    then with_client w ps
    else if ps.has_token_source && w.kept_token
    then with_client w ps
    else if w.new_token_source && w.new_token
    then with_client w (record ps { has_token_source = true })
    else dropped ps

abbrev answer : World → Bool → List RemoteOut
answer w sent = if w.has_sender then (if sent then respond_ack else respond_error) ∷ [] else []

unfoldable pub receive : World → RemoteIn → RemoteActor → RemoteActor × List RemoteOut
unfolding start reconnect send_msg
receive w started ps = start w ps
receive w stopping ps = (ps, [])
receive w tick ps =
    (ps, if not ps.has_client || not w.is_connection_open then self_reconnect ∷ [] else [])
receive w verify_retry ps = (
  ps,
  if not ps.retry_flag || int_lt (since w.clock (pos ps.last_retry)) (pos 6000000000)
      then []
      else self_verify_replay ∷ [],
)
receive w reconnect_remote ps = reconnect w ps
receive w (send_data content) ps =
    let (sent, out) = send_msg w ps content in (ps, out ++ answer w sent)
receive w stopped ps = (ps, [])
receive w restarting ps = (ps, [])
