-- ===== src/App/Examples.antt =====
-- Runs of the app actor, and its theorems at concrete inputs.
use go_gwiot.Prelude.{
  String, ◌≡◌, refl, true, false, Option, none, some, List, [], ◌∷◌, ok, panic, some-injective,
  str_eq, eq_iff, Bool-cases, inl, inr, ◌≢◌, ◌↔◌, ◌⊎◌, ◌||◌, ◌&&◌,
}
use mathlib.Core.Path.{subst}
use go_gwiot.Prelude.Bytes.{Bytes, ascii, bytes_eq}
use go_gwiot.State.Value.{
  ℤ, pos, Float64, Value, null, string, Fields, end, field, get, get_nil, put, IsMap,
}
use go_gwiot.State.Compare.{only_changes, func_compare_v2, compare_value}
use go_gwiot.State.Actor as Status
use go_gwiot.State.Actor.{StatusActor, wait_error}
use go_gwiot.State.Keys.{rename, is_removed, is_static}
use go_gwiot.State.Replace.{replace_keys, replace_value}
use go_gwiot.Remote.Prepare.{RemoteMsg2}
use go_gwiot.Remote.Replay.{acked, send_data}
use go_gwiot.Remote.Actor as Remote
use go_gwiot.Remote.Actor.{RemoteActor, remote_msg2}
use go_gwiot.App.{
  App, to_remote, watch, KeycloakReply, World, new_app, started, terminated, status_msg, events_msg,
  receive, message, identified,
}
use go_gwiot.Keyc
use go_gwiot.Keyc.{KeycloakActor, held_of}
use go_gwiot.Keyc.Answers.{Gives}
use go_gwiot.App.{group_id, group_id_request}
use go_gwiot.App.Group.{reply_of, receive-group}
use go_gwiot.App.Messages.{report_text, report_of, receive-sent, quiet_status-panics}

abbrev marshal_state : Fields → Option Bytes
marshal_state m = some (ascii "{}")

abbrev marshal_events : List Fields → Option Bytes
marshal_events es = some (ascii "[]")

abbrev world : World
world = record {
  status_spawned = true;
  events_spawned = true;
  has_keycloak_url = false;
  keycloak = none;
  remote = some (ascii "remote-actor");
  reply = KeycloakReply.wait_error;
  muuid = [];
  hostname = "FLO-1";
}

abbrev running : App
running = record { pid_keycloak = none; pid_remote = some (ascii "remote-actor"); sn_dev = "" }

receive-started :
    receive marshal_state marshal_events world started new_app
    ≡ ok (running, watch (ascii "remote-actor") ∷ [])
unfolding receive new_app
receive-started = refl

receive-terminated :
    receive marshal_state marshal_events world (terminated (ascii "remote-actor")) running
    ≡ ok (running, [])
unfolding receive bytes_eq
receive-terminated = refl

abbrev named : App
named = record running { sn_dev = "FLO-1" }

abbrev state_part : Fields
state_part = identified marshal_state marshal_events world (field "sDv" (string "FLO-1") end)

receive-events :
    receive marshal_state marshal_events world (events_msg []) running
    ≡ ok (
      named,
      to_remote (some (ascii "remote-actor")) (message marshal_state marshal_events state_part [])
          ∷ [],
    )
unfolding receive
receive-events = refl

report_of-events :
    report_of marshal_state marshal_events world running (events_msg []) ≡ some (state_part, [])
unfolding report_of
report_of-events = refl

abbrev remote_world : Remote.World
remote_world = record {
  opened = true;
  opens = true;
  spawned = true;
  clock = 0;
  unix_nano = 7;
  rows = [];
  reply = acked;
  quoted_host = ascii "\"FLO-1\"";
  day = λ t. ascii "19700101";
}

abbrev remote_up : RemoteActor
remote_up = record {
  last_retry = 0;
  has_client = true;
  retry_days = pos 0;
  retry_flag = false;
  disable_replay = false;
  is_database_open = true;
  is_connected = true;
  has_db = true;
  has_cancel = true;
}

receive-sent_example :
    (rm : RemoteMsg2) × (to_remote
          (some (ascii "remote-actor"))
          (message marshal_state marshal_events state_part [])
        ∷ []
      ≡ to_remote (some (ascii "remote-actor")) rm ∷ [])
    × (Remote.receive remote_world (remote_msg2 rm) remote_up
        ≡ ok (
          remote_up,
          record {
            effects =
                send_data (report_text (ascii "\"FLO-1\"") (ascii "{}") (ascii "[]")) acked ∷ [];
            self_sent = [];
          },
        ))
receive-sent_example =
    receive-sent marshal_state marshal_events world running named (events_msg [])
      (to_remote (some (ascii "remote-actor")) (message marshal_state marshal_events state_part [])
        ∷ [])
      state_part [] remote_world remote_up (ascii "{}") (ascii "[]") receive-events report_of-events
      refl refl refl refl

-- A device with one reading, which does not change.
abbrev reading : Fields
reading = field "h" (string "x") end

abbrev steady : StatusActor
steady = record { last_status_msg = some reading; group_id = "" }

abbrev millis : Float64 → ℤ
millis f = pos f.bits

receive-steady :
    Status.receive millis steady (Status.status_msg reading) wait_error ≡ ok (steady, some none)
unfolding Status.receive replace_keys replace_value rename put get only_changes func_compare_v2
    compare_value is_removed is_static get_nil
receive-steady = refl

reading-h :
    (v : Value) → get reading "h" ≡ some v → func_compare_v2 "h" (get_nil reading "h") v ≡ ok null
unfolding get get_nil func_compare_v2 compare_value is_removed is_static
reading-h v h =
    subst (λ u. func_compare_v2 "h" (get_nil reading "h") u ≡ ok null) (some-injective h) refl

reading-quiet :
    (k : String) (v : Value)
    → get reading k ≡ some v
    → func_compare_v2 k (get_nil reading k) v ≡ ok null
unfolding get
reading-quiet k v h = elim (Bool-cases (str_eq "h" k)) [
  | inl e ↦
      subst
        (λ j.
          (u : Value) → get reading j ≡ some u → func_compare_v2 j (get_nil reading j) u ≡ ok null)
        ((eq_iff "h" k).0 e) reading-h v h
  | inr e ↦ absurd (let h' : none ≡ some v = rw e at h in cc)
]

steady-IsValid : Status.IsValid steady
unfolding get
steady-IsValid l e = subst IsMap (some-injective e) (refl, tt)

quiet_status-panics_example :
    receive marshal_state marshal_events world (status_msg none) running ≡ panic
quiet_status-panics_example =
    quiet_status-panics millis steady steady reading reading reading wait_error none marshal_state
      marshal_events world running steady-IsValid refl refl receive-steady reading-quiet

abbrev keycloak_up : KeycloakActor
keycloak_up = record { username = []; password = []; has_token_source = true; has_keyc = true }

abbrev keycloak_world : Keyc.World
keycloak_world = record {
  held = some (record { access_token = ascii "abc"; expiry = 1 });
  server = true;
  password_accepted = false;
  sourced = false;
  user_info = some (field "group_name" (string "fleet") end);
  formatted = λ v. ascii "fleet";
}

abbrev asking : World
asking = record world { reply = KeycloakReply.answered (ascii "fleet"); has_keycloak_url = true }

abbrev with_keycloak : App
with_keycloak = record running { pid_keycloak = some (ascii "keyc-actor") }

asking-answered :
    asking.reply ≡ reply_of (Keyc.receive keycloak_world Keyc.group_id_request keycloak_up).1
unfolding Keyc.receive get
asking-answered = refl

receive-group_example :
    (receive marshal_state marshal_events asking group_id_request with_keycloak
      ≡ ok (with_keycloak, group_id (ascii "fleet") ∷ []))
    ↔ ((with_keycloak.pid_keycloak ≢ none)
        × ((keycloak_up.has_keyc || keycloak_world.server) ≡ true)
        × ((held_of keycloak_world keycloak_up ≢ none)
            ⊎ ((keycloak_world.password_accepted && keycloak_world.sourced) ≡ true))
        × Gives keycloak_world (ascii "fleet"))
receive-group_example =
    receive-group marshal_state marshal_events asking with_keycloak keycloak_world keycloak_up
      (ascii "fleet") asking-answered
