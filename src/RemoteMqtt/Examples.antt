-- ===== src/RemoteMqtt/Examples.antt =====
-- Runs of the MQTT client, and its theorems at concrete inputs.
use go_gwiot.Prelude.{◌≡◌, refl, true, false, ◌&&◌, [], ◌∷◌, ◌⊎◌, ok, ltb, if◌then◌else◌}
use go_gwiot.Prelude.Bytes.{ascii}
use go_gwiot.State.Value.{pos}
use go_gwiot.Remote.Prepare.{RemoteMsg2, prepare_msg}
use go_gwiot.Remote.Replay
use go_gwiot.Remote.Replay.{msg_error}
use go_gwiot.Remote.Actor as Remote
use go_gwiot.Remote.Actor.{remote_msg2}
use go_gwiot.RemoteMqtt.{
  RemoteActor, pending, published, started, send_data, publish, respond_ack, respond_error,
  request_reconnect, World, new_remote, topic_of, receive,
}
use go_gwiot.RemoteMqtt.Sending.{IsPublished, receive-send_data}
use go_gwiot.RemoteMqtt.Lost.{reply_of, receive-lost}

abbrev world : World
world = record {
  has_parent = true;
  has_sender = true;
  clock = 0;
  hostname = ascii "FLO-1";
  is_connection_open = true;
  kept_token = false;
  new_token_source = true;
  new_token = true;
  connects = true;
  waits = λ i. if ltb i 3 then pending else published;
}

abbrev client : RemoteActor
client = record {
  has_client = true;
  has_token_source = true;
  last_retry = 0;
  has_jwt_conf = true;
  has_cancel = true;
  test = false;
  retry_flag = false;
}

receive-started : receive world started (new_remote false true) ≡ (client, request_reconnect ∷ [])
unfolding receive new_remote
receive-started = refl

receive-published :
    (receive world (send_data (ascii "x")) client).1
    ≡ publish (ascii "/devices/FLO-1/events") (ascii "x") ∷ respond_ack ∷ []
unfolding receive
receive-published = refl

receive-send_data_example :
    let out = (receive world (send_data (ascii "x")) client).1 in
    ((out ≡ publish (topic_of world false) (ascii "x") ∷ respond_ack ∷ [])
      × (client.has_client ≡ true)
      × (world.is_connection_open ≡ true)
      × IsPublished 10 world.waits)
    ⊎ ((out ≡ publish (topic_of world false) (ascii "x") ∷ respond_error ∷ [])
        × ¬ IsPublished 10 world.waits)
    ⊎ ((out ≡ respond_error ∷ []) × ((client.has_client && world.is_connection_open) ≡ false))
receive-send_data_example = receive-send_data world client (ascii "x") refl

abbrev cut : World
cut = record world { is_connection_open = false }

abbrev remote_world : Remote.World
remote_world = record {
  opened = true;
  opens = true;
  spawned = true;
  clock = 0;
  unix_nano = 7;
  rows = [];
  reply = msg_error;
  quoted_host = ascii "\"FLO-1\"";
  day = λ t. ascii "19700101";
}

abbrev remote_up : Remote.RemoteActor
remote_up = record {
  last_retry = 0;
  has_client = true;
  retry_days = pos 0;
  retry_flag = false;
  disable_replay = false;
  is_database_open = true;
  is_connected = true;
  has_db = true;
  has_cancel = true;
}

abbrev message : RemoteMsg2
message = record { state = []; events = []; content = ascii "x"; version = pos 1 }

prepare_msg-message : prepare_msg (ascii "\"FLO-1\"") message ≡ ok (ascii "x")
unfolding prepare_msg
prepare_msg-message = refl

reply-refused : msg_error ≡ reply_of (receive cut (send_data (ascii "x")) client).1
unfolding receive
reply-refused = refl

receive-lost_example :
    ((receive cut (send_data (ascii "x")) client).1 ≡ respond_error ∷ [])
    × (Remote.receive remote_world (remote_msg2 message) remote_up
        ≡ ok (
          remote_up,
          record { effects = Replay.send_data (ascii "x") msg_error ∷ []; self_sent = [] },
        ))
receive-lost_example =
    receive-lost cut client remote_world remote_up message (ascii "x") refl refl refl
      prepare_msg-message reply-refused
