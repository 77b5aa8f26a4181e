-- ===== src/Remote/Examples.antt =====
-- Runs of the remote actor, and its theorems at concrete inputs.
use go_gwiot.Prelude.{
  ℕ, zero, suc, ◌≤◌, ◌<◌, ◌≡◌, refl, true, false, if◌then◌else◌, none, some, List, [], ◌∷◌, ◌++◌,
  arith, All, ok, panic, ◌↔◌, ◌⊎◌, length,
}
use go_gwiot.Prelude.Bytes.{Bytes, ascii, bytes_eq}
use go_gwiot.State.Value.{ℤ, pos}
use go_gwiot.Remote.Numbers.{parse_int, decimal}
use go_gwiot.Remote.Prepare.{RemoteMsg2, prepare_msg, prepare_msg-panic_iff}
use go_gwiot.Remote.Replay.{
  Effect, request_error, acked, send_data, update, Row, Setting, replay_rows, database_name,
  collection_usos_data, deleted, is_old,
}
use go_gwiot.Remote.Replay.Limit.{sends, IsSendable, sent_in_order, replay_rows-sent_in_order}
use go_gwiot.Remote.Replay.Kept.{Store, IsSafe, carried_out, replay_rows-IsSafe}
use go_gwiot.Remote.Actor.{
  RemoteActor, verify_retry, verify_replay, remote_msg2, World, Output, receive, setting,
  replay_start,
}
use go_gwiot.Remote.Actor.Backup.{Fate, receive-Fate, receive-replay_rows}
use go_gwiot.Remote.Actor.Retry.{receive-retry, Reach, here, next}

parse_negative : parse_int (ascii "-12") ≡ some (ℤ.negsuc 11)
unfolding parse_int
parse_negative = refl

parse_not : parse_int (ascii "12a") ≡ none
unfolding parse_int
parse_not = refl

abbrev host : Bytes
host = ascii "\"FLO-1\""

abbrev no_events : RemoteMsg2
no_events = record { state = ascii "{}"; events = []; content = []; version = pos 2 }

prepare_msg-panic_iff_example :
    (prepare_msg host no_events ≡ panic)
    ↔ ((length no_events.state < 2) ⊎ (length no_events.events < 2))
prepare_msg-panic_iff_example = prepare_msg-panic_iff host no_events refl

abbrev row : Row
row = record { id = ascii "7"; el = ascii "x"; now = 9; reply = acked }

abbrev connected : Setting
connected = record { retry_days = pos 0; is_connected = true; day = λ t. ascii "19700101" }

row-IsSendable : IsSendable connected row
unfolding parse_int is_old
row-IsSendable = (pos 7, refl, refl, refl)

replay_rows-sent_in_order_example :
    ((replay_rows connected (row ∷ []) replay_start).effects ≡ [] ++ sent_in_order (row ∷ []))
    × ((replay_rows connected (row ∷ []) replay_start).retry_flag ≡ false)
replay_rows-sent_in_order_example =
    replay_rows-sent_in_order connected (row ∷ []) replay_start refl (row-IsSendable, tt)
      (omega arith)

abbrev one_kept : Store
one_kept = λ db coll id. if bytes_eq id (ascii "7") then some (ascii "x") else none

one_kept_read : one_kept database_name collection_usos_data (ascii "7") ≡ some (ascii "x")
unfolding bytes_eq
one_kept_read = refl

replay_rows-IsSafe_example :
    IsSafe connected
      (ascii "7")
      (ascii "x")
      (carried_out one_kept (replay_rows connected (row ∷ []) replay_start).effects)
      (replay_rows connected (row ∷ []) replay_start).effects
replay_rows-IsSafe_example =
    replay_rows-IsSafe connected (row ∷ []) replay_start one_kept (ascii "7") (ascii "x") refl
      (one_kept_read, tt) one_kept_read

abbrev many : ℕ → List Row
many zero = []
many (suc n) = row ∷ many n

abbrev world : World
world = record {
  opened = true;
  opens = true;
  spawned = true;
  clock = 6000000000;
  unix_nano = 7;
  rows = many 32;
  reply = request_error;
  quoted_host = host;
  day = λ t. ascii "19700101";
}

abbrev up : RemoteActor
up = record {
  last_retry = 0;
  has_client = true;
  retry_days = pos 0;
  retry_flag = false;
  disable_replay = false;
  is_database_open = true;
  is_connected = true;
  has_db = true;
  has_cancel = true;
}

abbrev down : RemoteActor
down = record up { is_connected = false }

abbrev message : RemoteMsg2
message = record { state = []; events = []; content = ascii "x"; version = pos 1 }

abbrev kept_out : Output
kept_out = record {
  effects = update (decimal 7) (ascii "x") database_name collection_usos_data ∷ [];
  self_sent = [];
}

receive-down : receive world (remote_msg2 message) down ≡ ok (down, kept_out)
unfolding receive prepare_msg
receive-down = refl

receive-Fate_example :
    (content : Bytes) × (prepare_msg host message ≡ ok content)
    × Fate world down down content kept_out.effects
receive-Fate_example = receive-Fate world down down message kept_out receive-down

decimal_7 : row.id ≡ decimal 7
unfolding decimal
decimal_7 = refl

kept_read :
    carried_out (λ db coll id. none) kept_out.effects database_name collection_usos_data row.id
    ≡ some row.el
unfolding carried_out decimal bytes_eq
kept_read = refl

not_old : is_old connected.retry_days row.now (pos 7) ≡ false
unfolding is_old
not_old = refl

-- A record that cannot be read as a time comes before it, and one after it.
abbrev odd : Row
odd = record { id = ascii "x"; el = ascii "y"; now = 0; reply = acked }

receive-replay_rows_example :
    (content : Bytes) × (prepare_msg host message ≡ ok content)
    × (carried_out
          (λ db coll id. none)
          kept_out.effects
          database_name
          collection_usos_data
          (decimal 7)
        ≡ some content)
    × (rest : List Effect) × ((replay_rows connected
          ((odd ∷ []) ++ row ∷ odd ∷ [])
          replay_start).effects
        ≡ (replay_rows connected (odd ∷ []) replay_start).effects
          ++ send_data content acked ∷ deleted (decimal 7) ∷ rest)
receive-replay_rows_example =
    receive-replay_rows world down down message kept_out (λ db coll id. none) connected (odd ∷ [])
      (odd ∷ []) row receive-down refl refl refl (omega arith) decimal_7 kept_read (omega arith)
      refl refl not_old

many-IsSendable : (n : ℕ) → All (IsSendable (setting world up)) (many n)
unfolding parse_int is_old
many-IsSendable zero = tt
many-IsSendable (suc n) = ((pos 7, refl, refl, refl), many-IsSendable n)

abbrev replayed : RemoteActor × Output
replayed = (
  record up { retry_flag = (replay_rows (setting world up) (many 32) replay_start).retry_flag },
  record {
    effects = (replay_rows (setting world up) (many 32) replay_start).effects;
    self_sent = [];
  },
)

receive_replay : receive world verify_replay up ≡ ok replayed
unfolding receive
receive_replay = refl

receive-retry_example :
    (sends replayed.1.effects ≤ 31)
    × (receive world verify_retry replayed.0
        ≡ ok (replayed.0, record { effects = []; self_sent = verify_replay ∷ [] }))
receive-retry_example =
    receive-retry world world up replayed.0 replayed.1 refl refl refl (many-IsSendable 32)
      (omega arith) (omega arith) receive_replay

reached : Reach up replayed.0
reached = next here world verify_replay replayed.0 replayed.1 receive_replay
