-- ===== src/Main/Examples.antt =====
-- The program's start at concrete flags and settings, and the theorems there.
use go_gwiot.Prelude.{
  String, ◌≡◌, refl, true, false, some, List, [], ◌∷◌, ok, str_eq, All, if◌then◌else◌, Option,
}
use go_gwiot.Prelude.Bytes.{Bytes, ascii}
use go_gwiot.State.Value.{Fields, pos, negsuc}
use go_gwiot.Remote.Prepare.{RemoteMsg2, prepare_msg}
use go_gwiot.Remote.Replay.{msg_error}
use go_gwiot.Remote.Actor as Remote
use go_gwiot.Remote.Actor.{remote_msg2, reconnect, send_msg}
use go_gwiot.RemoteMqtt
use go_gwiot.App
use go_gwiot.App.{App, KeycloakReply, new_app, started, watch}
use go_gwiot.Main.{Config, defaults, get_env, Flags, mqtt, main}
use go_gwiot.Main.Settings.{IsResolved, get_env-IsResolved}
use go_gwiot.Main.Wiring.{here, next, IsUnstored, main-IsUnstored}

abbrev flags_given : Config
flags_given = record {
  keycloak_url = "";
  redirect_url = "";
  remote_broker_url = "wss://broker";
  realm = "";
  client_secret = "";
  client_id = "";
}

abbrev getenv : String → String
getenv name = if str_eq name "REALM_DEVICES" then "FLEET" else ""

abbrev resolved : Config
resolved = record {
  keycloak_url = "https://sibus.nebulae.com.co/auth";
  redirect_url = "https://sibus.nebulae.com.co";
  remote_broker_url = "wss://broker";
  realm = "FLEET";
  client_secret = "a367c3bc-089e-4b46-8df9-439bf814557e";
  client_id = "devices";
}

get_env-resolved : get_env getenv flags_given ≡ resolved
unfolding get_env
get_env-resolved = refl

get_env-IsResolved_example :
    let c' = get_env getenv flags_given in
    IsResolved "" "" defaults.keycloak_url c'.keycloak_url
    × IsResolved "" "" defaults.redirect_url c'.redirect_url
    × IsResolved "wss://broker" "" defaults.remote_broker_url c'.remote_broker_url
    × IsResolved "" "FLEET" defaults.realm c'.realm
    × IsResolved "" "" defaults.client_secret c'.client_secret
    × IsResolved "" "" defaults.client_id c'.client_id
    × (get_env getenv c' ≡ c')
get_env-IsResolved_example = get_env-IsResolved getenv getenv flags_given

abbrev app_world : App.World
app_world = record {
  status_spawned = true;
  events_spawned = true;
  has_keycloak_url = true;
  keycloak = some (ascii "keyc-actor");
  remote = some (ascii "remote-actor");
  reply = KeycloakReply.wait_error;
  muuid = [];
  hostname = "FLO-1";
}

abbrev app_up : App
app_up = record {
  pid_keycloak = some (ascii "keyc-actor");
  pid_remote = some (ascii "remote-actor");
  sn_dev = "";
}

abbrev marshal_state : Fields → Option Bytes
marshal_state m = some (ascii "{}")

abbrev marshal_events : List Fields → Option Bytes
marshal_events es = some (ascii "[]")

app-started :
    App.receive marshal_state marshal_events app_world started new_app
    ≡ ok (app_up, watch (ascii "remote-actor") ∷ [])
unfolding App.receive new_app
app-started = refl

abbrev flags : Flags
flags = record {
  test = false;
  version = false;
  disable_retransmission = true;
  retry_days = negsuc 2;
  isnats = false;
}

abbrev remote_made : Remote.RemoteActor
remote_made = record {
  last_retry = 0;
  has_client = false;
  retry_days = pos 0;
  retry_flag = false;
  disable_replay = true;
  is_database_open = false;
  is_connected = false;
  has_db = false;
  has_cancel = false;
}

main-made : main flags ≡ some (mqtt (RemoteMqtt.new_remote false true) remote_made)
unfolding main Remote.new_remote Remote.disable_replay Remote.retry_days_replay
main-made = refl

abbrev remote_world : Remote.World
remote_world = record {
  opened = true;
  opens = true;
  spawned = true;
  clock = 0;
  unix_nano = 7;
  rows = [];
  reply = msg_error;
  quoted_host = ascii "\"FLO-1\"";
  day = λ t. ascii "19700101";
}

-- The actor has opened the database, and the client is not connected.
abbrev remote_up : Remote.RemoteActor
remote_up = record remote_made {
  has_client = true;
  is_database_open = true;
  has_db = true;
  has_cancel = true;
}

remote-started :
    Remote.receive remote_world Remote.started remote_made
    ≡ ok (remote_up, record { effects = []; self_sent = [] })
unfolding Remote.receive
remote-started = refl

abbrev message : RemoteMsg2
message = record { state = []; events = []; content = ascii "x"; version = pos 1 }

abbrev nothing : Remote.Output
nothing = record { effects = []; self_sent = [] }

remote-dropped :
    Remote.receive remote_world (remote_msg2 message) remote_up ≡ ok (remote_up, nothing)
unfolding Remote.receive prepare_msg
remote-dropped = refl

main-IsUnstored_example : All IsUnstored nothing.effects
main-IsUnstored_example =
    main-IsUnstored flags (RemoteMqtt.new_remote false true) remote_made remote_up remote_up
      remote_world message nothing main-made refl
      (next remote_world Remote.started nothing here remote-started) remote-dropped
