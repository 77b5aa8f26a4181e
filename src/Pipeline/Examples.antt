-- ===== src/Pipeline/Examples.antt =====
-- An event on its way, at concrete inputs.
mod Broker
use go_gwiot.Prelude.{
  String, map, ◌≡◌, refl, Bool, true, false, none, some, List, [], ◌∷◌, Option, ok, ◌++◌,
}
use go_gwiot.Prelude.Bytes.{Bytes, ascii}
use go_gwiot.State.Value.{Decoded, ℤ, Float64, string, Fields, field, end, pos, get, put}
use go_gwiot.State.Keys.{rename}
use go_gwiot.State.Replace.{replace_keys}
use go_gwiot.Events.{parse_events, EventsActor, EventsIn, event_msg, tick_msg, prepare}
use go_gwiot.Events as Events
use go_gwiot.Events.Queue.{joined, received, run}
use go_gwiot.Remote.Replay.{acked}
use go_gwiot.Remote.Actor as Remote
use go_gwiot.Remote.Actor.{RemoteActor, Output, remote_msg2}
use go_gwiot.Remote.Actor.Backup.{Fate}
use go_gwiot.App.{App, World, KeycloakReply, events_msg, to_remote, receive, message, drop_nil}
use go_gwiot.App.Messages.{report_of, report_text}
use go_gwiot.Pipeline.{Has, event-Fate}
use go_gwiot.Remote.Numbers.{decimal}
use go_gwiot.Remote.Prepare.{RemoteMsg2, prepare_msg}
use go_gwiot.Remote.Replay.{Effect, update, database_name, collection_usos_data}
use go_gwiot.Prelude.Bytes.{bytes_eq}
use go_gwiot.Database.Bolt.{collection}
use go_gwiot.Database.Errors.{returned}
use go_gwiot.Database.Fsm.{s_wait_event}
use go_gwiot.Database.Messages.{Place, ack_persist_data, ack_get_data}
use go_gwiot.Database.Repo.{sent, persist_data, get_data}
use go_gwiot.Database.Actor as Database
use go_gwiot.Database.Actor.{DbActor, wait_state}
use go_gwiot.Database.Service
use go_gwiot.Database.Memory.{Table, written, memory_storage, memory_fsm, memory_buckets}
use go_gwiot.State.Actor.{parse_status}
use go_gwiot.PubSub
use go_gwiot.PubSub.{PubSub, TokenWait, put_topic, get_topic}
use go_gwiot.PubSub.Synced.{Iterates, Accepted, Call, call, calls, latest}
use go_gwiot.Pipeline.Arrival.{
  Incoming, Arrival, status_subscription, events_subscription, subscribed, deliveries, events_for,
  event_texts, arrivals-batches,
}
use go_gwiot.Pipeline.Stored.{place_at, receive-stored}

abbrev is_whole : Float64 → Bool
is_whole f = true

abbrev millis : Float64 → ℤ
millis f = pos 0

abbrev empty : EventsActor
empty = record { events = [] }

abbrev event : Fields
event = field "type" (string "door") end

abbrev ins : List EventsIn
ins = event_msg event ∷ tick_msg ∷ []

abbrev batch : List Fields
batch = field "tp" (string "door") end ∷ []

run-ins : run is_whole millis empty ins ≡ ok (empty, batch ∷ [])
unfolding run Events.receive replace_keys rename get put
run-ins = refl

event-received : Has event (received ins)
event-received = ([], [], refl)

abbrev state_text : Fields → Bytes
state_text m = ascii "{}"

abbrev events_text : List Fields → Bytes
events_text es = ascii "[]"

abbrev marshal_state : Fields → Option Bytes
marshal_state m = some (state_text m)

abbrev marshal_events : List Fields → Option Bytes
marshal_events es = some (events_text es)

abbrev app_world : World
app_world = record {
  status_spawned = true;
  events_spawned = true;
  has_keycloak_url = false;
  keycloak = none;
  remote = some (ascii "remote-actor");
  reply = KeycloakReply.wait_error;
  muuid = [];
  hostname = "FLO-1";
}

abbrev app : App
app = record { pid_keycloak = none; pid_remote = some (ascii "remote-actor"); sn_dev = "FLO-1" }

abbrev remote_world : Remote.World
remote_world = record {
  opened = true;
  opens = true;
  spawned = true;
  clock = 0;
  unix_nano = 7;
  rows = [];
  reply = acked;
  quoted_host = ascii "\"FLO-1\"";
  day = λ t. ascii "19700101";
}

abbrev offline : RemoteActor
offline = record {
  last_retry = 0;
  has_client = true;
  retry_days = pos 0;
  retry_flag = false;
  disable_replay = false;
  is_database_open = true;
  is_connected = false;
  has_db = true;
  has_cancel = true;
}

event-Fate_example :
    (b : List Fields) × Has b (batch ∷ [])
    × Has (prepare is_whole millis event) b
    × (state : Fields) × (report_of marshal_state marshal_events app_world app (events_msg b)
        ≡ some (state, b))
    × (app' : App) × (receive marshal_state marshal_events app_world (events_msg b) app
        ≡ ok (app', to_remote app.pid_remote (message marshal_state marshal_events state b) ∷ []))
    × (ps' : RemoteActor) × (sent : Output) × (Remote.receive remote_world
          (remote_msg2 (message marshal_state marshal_events state b))
          offline
        ≡ ok (ps', sent))
    × Fate remote_world offline ps'
        (report_text remote_world.quoted_host (state_text (drop_nil state)) (events_text b))
        sent.effects
event-Fate_example =
    event-Fate is_whole millis marshal_state marshal_events ins empty empty (batch ∷ []) event
      app_world app remote_world offline state_text events_text run-ins refl event-received
      (λ m. refl) (λ es. refl)

-- The database of the remote actor, in memory.
abbrev blank : Table
blank = λ p k. none

abbrev nothing_stored : DbActor Table
nothing_stored = record {
  fm = s_wait_event;
  act = record { behavior = wait_state; db = some blank; self_sent = []; replies = [] };
}

abbrev kept : Place
kept = record { id = ascii "7"; database = ascii "replayeventsdb"; collection = ascii "events" }

abbrev one_stored : DbActor Table
one_stored = record {
  fm = s_wait_event;
  act = record {
    behavior = wait_state;
    db = some (written blank (collection kept.database kept.collection) kept.id (some (ascii "x")));
    self_sent = [];
    replies = ack_persist_data kept ∷ [];
  };
}

abbrev one_read : DbActor Table
one_read = record one_stored {
  act = record one_stored.act { replies = ack_get_data (ascii "x") ∷ [] };
}

abbrev db_world : Database.World Table
db_world = record {
  opened = some blank;
  fresh = returned (ascii "u");
  turns = λ i. sent;
  has_sender = true;
  fuel = 4;
  ack_first = false;
}

abbrev plain : RemoteMsg2
plain = record { state = []; events = []; content = ascii "x"; version = pos 1 }

abbrev kept_out : Output
kept_out = record {
  effects = update (ascii "7") (ascii "x") (ascii "replayeventsdb") (ascii "events") ∷ [];
  self_sent = [];
}

plain-handled : Remote.receive remote_world (remote_msg2 plain) offline ≡ ok (offline, kept_out)
unfolding Remote.receive prepare_msg decimal
plain-handled = refl

plain-prepared : prepare_msg remote_world.quoted_host plain ≡ ok (ascii "x")
unfolding prepare_msg
plain-prepared = refl

update-kept :
    Service.update memory_storage memory_fsm db_world (place_at 7) (ascii "x") nothing_stored
    ≡ ok (one_stored, returned (ascii "7"))
unfolding Service.update Service.persist_result Database.receive persist_data decimal
update-kept = refl

get-kept :
    Service.get memory_storage memory_fsm db_world (place_at 7) one_stored
    ≡ ok (one_read, returned (ascii "x"))
unfolding Service.get Service.get_result Database.receive get_data bytes_eq decimal
get-kept = refl

receive-stored_example :
    ((tried : List Effect) × (kept_out.effects
        ≡ tried ++ update (decimal 7) (ascii "x") database_name collection_usos_data ∷ []))
    × (ascii "7" ≡ decimal 7)
    × (◌≡◌ {A = Bytes} (ascii "x") (ascii "x"))
receive-stored_example =
    receive-stored memory_storage memory_fsm memory_buckets remote_world offline offline plain
      (ascii "x") kept_out db_world db_world blank nothing_stored one_stored one_read (ascii "7")
      (ascii "x") plain-handled plain-prepared refl refl refl
      (record { fm = refl; db = refl; behavior = refl }) refl refl update-kept get-kept
