-- ===== src/Remote/Replay.antt =====
-- The replay of kept messages, the closure `query` of internal/remote/remote-actor.go, as the rounds
-- that the database service calls it for.
pub mod Rounds
pub mod Kept
pub mod Limit
use go_gwiot.Prelude.{
  ℕ, suc, ◌+◌, ◌*◌, ◌≡◌, Bool, true, false, ◌&&◌, not, Option, none, some, List, [], ◌∷◌, ◌++◌, ltb,
  if◌then◌else◌,
}
use go_gwiot.Prelude.Bytes.{Bytes, ascii}
use go_gwiot.State.Value.{ℤ, pos, negsuc}
use go_gwiot.Remote.Numbers.{parse_int, whole_millis, since, int_lt, to_int64}

-- `DatabaseName` and `CollectionUsosData`
abbrev pub database_name : Bytes
database_name = ascii "replayeventsdb"

abbrev pub collection_usos_data : Bytes
collection_usos_data = ascii "events"

-- How `ctx.RequestFuture(ps.pidClient, &MsgSendData{…}, 5*time.Second)` ends: with an error of the
-- future, a `*MsgError`, or another message.
pub data SendReply : Type 0 where
  request_error msg_error acked : SendReply

-- What the actor does to the world, in order: it asks the client to send, and calls the database.
pub data Effect : Type 0 where
  send_data : Bytes → SendReply → Effect
  update : Bytes → Bytes → Bytes → Bytes → Effect  -- id, data, database, collection
  update_async : Bytes → Bytes → Bytes → Bytes → Effect
  delete_without_response : Bytes → Bytes → Bytes → Effect  -- id, database, collection

-- A row of the query, the time when it is handled, and how a request to send it would end.
pub record Row : Type 0 where
  pub id : Bytes
  pub el : Bytes
  pub now : ℕ
  pub reply : SendReply

-- `ps.retryDays`, `ps.isConnected` and `time.Format("20060102")` of a time in nanoseconds.
pub record Setting : Type 0 where
  pub retry_days : ℤ
  pub is_connected : Bool
  pub day : ℤ → Bytes

-- What the closure writes: its `count`, `ps.retryFlag`, and whether `ps.lastSendedMsg` was set.
pub record Replay : Type 0 where
  pub count : ℕ
  pub retry_flag : Bool
  pub has_sent : Bool
  pub effects : List Effect

abbrev pub is_positive : ℤ → Bool
is_positive (pos (suc n)) = true
is_positive _ = false

-- `time.Duration(ps.retryDays)*24*time.Hour`, for a positive number of days
abbrev days_long : ℤ → ℤ
days_long (pos n) = to_int64 (n * 86400000000000)
days_long (negsuc n) = pos 0

unfoldable pub is_old : ℤ → ℕ → ℤ → Bool
is_old retry_days now tid =
    is_positive retry_days && int_lt (days_long retry_days) (since now (whole_millis tid))

abbrev pub archive : Setting → ℤ → Bytes
archive s tid = collection_usos_data ++ ascii "_" ++ s.day (whole_millis tid)

abbrev add : List Effect → Replay → Replay
add es r = record r { effects = r.effects ++ es }

abbrev pub deleted : Bytes → Effect
deleted id = delete_without_response id database_name collection_usos_data

-- The request to send, and what its answer leads to; the second part is whether to go on.
unfoldable pub send_row : Row → Replay → Replay × Bool
send_row row r = elim row.reply [
  | request_error ↦ (add (send_data row.el request_error ∷ []) r, false)
  | msg_error ↦ (add (send_data row.el msg_error ∷ []) r, false)
  | acked ↦
      (add (send_data row.el acked ∷ deleted row.id ∷ []) (record r { has_sent = true }), true)
]

unfoldable pub query : Setting → Row → Replay → Replay × Bool
unfolding send_row is_old
query s row r =
    if ltb 30 r.count
    then (record r { retry_flag = true }, false)
    else (let r' = record r { count = suc r.count } in
        elim (parse_int row.id) [
          | none ↦ (add (deleted row.id ∷ []) r', true)
          | some tid ↦
              if is_old s.retry_days row.now tid
              then (
                add (update_async row.id row.el database_name (archive s tid) ∷ deleted row.id ∷ [])
                    r',
                true,
              )
              else if not s.is_connected
              then (r', false)
              else send_row row r'
        ])

-- All calls of the closure in one query. The service goes on calling it while rows arrive; its result
-- only asks the query to end, so rows that are under way may follow a refusal.
unfoldable pub replay_rows : Setting → List Row → Replay → Replay
unfolding query
replay_rows s [] r = r
replay_rows s (row ∷ rows) r = replay_rows s rows (query s row r).0
