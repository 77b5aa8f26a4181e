-- ===== src/Remote/Actor.antt =====
-- The remote actor of internal/remote/remote-actor.go. A handler returns the new state, and what it
-- did to the client and the database and sent to itself; a panic restarts the actor. Sleeping, logging
-- and the field `lastSendedMsg`, which nothing reads, are left out.
pub mod Backup
pub mod Retry
use go_gwiot.Prelude.{
  ℕ, Bool, true, false, ◌&&◌, ◌||◌, not, List, [], ◌∷◌, ◌++◌, Outcome, ok, panic, ◌>>=◌,
  if◌then◌else◌,
}
use go_gwiot.Prelude.Bytes.{Bytes}
use go_gwiot.State.Value.{ℤ, pos}
use go_gwiot.Remote.Numbers.{decimal, since, int_lt}
use go_gwiot.Remote.Prepare.{RemoteMsg2, prepare_msg}
use go_gwiot.Remote.Replay.{
  SendReply, request_error, msg_error, acked, Effect, send_data, update, Row, Setting, Replay,
  replay_rows, database_name, collection_usos_data,
}

-- Times are nanoseconds since the zero time of Go. `lastRetry` is never written.
pub record RemoteActor : Type 0 where
  pub last_retry : ℕ
  pub has_client : Bool  -- `ps.pidClient != nil`
  pub retry_days : ℤ
  pub retry_flag : Bool
  pub disable_replay : Bool
  pub is_database_open : Bool
  pub is_connected : Bool
  pub has_db : Bool  -- `ps.db != nil`
  pub has_cancel : Bool

-- `NewRemote`, `DisableReplay` and `RetryDaysReplay`
unfoldable pub new_remote : RemoteActor
new_remote = record {
  last_retry = 0;
  has_client = false;
  retry_days = pos 0;
  retry_flag = false;
  disable_replay = false;
  is_database_open = false;
  is_connected = false;
  has_db = false;
  has_cancel = false;
}

unfoldable pub disable_replay : Bool → RemoteActor → RemoteActor
disable_replay disable ps = record ps { disable_replay = disable }

unfoldable pub retry_days_replay : ℤ → RemoteActor → RemoteActor
retry_days_replay days ps = record ps { retry_days = days }

pub data RemoteIn : Type 0 where
  started : RemoteIn
  stopping : RemoteIn
  verify_retry : RemoteIn
  reconnect : RemoteIn
  verify_replay : RemoteIn
  remote_msg2 : RemoteMsg2 → RemoteIn
  stopped : RemoteIn
  restarting : RemoteIn

-- What the world answers while one message is handled.
pub record World : Type 0 where
  pub opened : Bool  -- `database.Open` succeeds
  pub opens : Bool  -- `ps.db.Open()` succeeds
  pub spawned : Bool  -- `ctx.SpawnNamed` succeeds
  pub clock : ℕ  -- `time.Now()`
  pub unix_nano : ℕ  -- `time.Now().UnixNano()`
  pub rows : List Row  -- the rows that `ps.db.Query` calls the closure for
  pub reply : SendReply
  pub quoted_host : Bytes
  pub day : ℤ → Bytes

pub record Output : Type 0 where
  pub effects : List Effect
  pub self_sent : List RemoteIn

abbrev silent : Output
silent = record { effects = []; self_sent = [] }

-- `if ps.db != nil && !ps.isDatabaseOpen { … }`
unfoldable pub ensure_open : World → RemoteActor → RemoteActor
ensure_open w ps =
    if ps.has_db && not ps.is_database_open && w.opens
    then record ps { is_database_open = true }
    else ps

start : World → RemoteActor → Outcome (RemoteActor × Output)
unfolding ensure_open
start w ps =
    if not w.opened && not ps.disable_replay
    then panic
    else (let ps' = if w.opened then ensure_open w (record ps { has_db = true }) else ps in
        if w.spawned
        then ok (record ps' { has_client = true; has_cancel = true }, silent)
        else panic)

abbrev pub setting : World → RemoteActor → Setting
setting w ps = record { retry_days = ps.retry_days; is_connected = ps.is_connected; day = w.day }

abbrev pub replay_start : Replay
replay_start = record { count = 0; retry_flag = false; has_sent = false; effects = [] }

-- `verifyReplay`: without an open database nothing is replayed.
unfoldable pub replay : World → RemoteActor → RemoteActor × Output
unfolding ensure_open
replay w ps =
    let ps' = ensure_open w (record ps { retry_flag = false }) in
    if not ps'.has_db || not ps'.is_database_open
    then (ps', silent)
    else (let r = replay_rows (setting w ps') w.rows replay_start in
        (record ps' { retry_flag = r.retry_flag }, record { effects = r.effects; self_sent = [] }))

-- Whether `Wait` returns an error: a `*MsgError` is no error of the future.
abbrev pub is_request_error : SendReply → Bool
is_request_error request_error = true
is_request_error _ = false

-- What is kept of a message that could not be sent.
unfoldable pub backup : World → Bytes → List Effect → RemoteActor → RemoteActor × Output
unfolding ensure_open
backup w content tried ps =
    let ps' = ensure_open w ps in
    (
      ps',
      record {
        effects =
            if not ps'.disable_replay && ps'.has_db && ps'.is_database_open
            then tried
              ++ update (decimal w.unix_nano) content database_name collection_usos_data ∷ []
            else tried;
        self_sent = [];
      },
    )

unfoldable pub send_msg : World → Bytes → RemoteActor → RemoteActor × Output
unfolding backup
send_msg w content ps =
    if not ps.is_connected
    then backup w content [] ps
    else if is_request_error w.reply
    then backup w content (send_data content w.reply ∷ []) ps
    else (ps, record { effects = send_data content w.reply ∷ []; self_sent = [] })

unfoldable pub receive : World → RemoteIn → RemoteActor → Outcome (RemoteActor × Output)
unfolding start replay send_msg
receive w started ps = start w ps
receive w verify_retry ps =
    if not ps.retry_flag || int_lt (since w.clock (pos ps.last_retry)) (pos 6000000000)
    then ok (ps, silent)
    else ok (ps, record { effects = []; self_sent = verify_replay ∷ [] })
receive w reconnect ps =
    ok (record ps { is_connected = true }, record { effects = []; self_sent = verify_replay ∷ [] })
receive w verify_replay ps = ok (replay w ps)
receive w (remote_msg2 msg) ps = do
  content ← prepare_msg w.quoted_host msg
  ok (send_msg w content ps)
receive w stopping ps = ok (ps, silent)
receive w stopped ps = ok (ps, silent)
receive w restarting ps = ok (ps, silent)
