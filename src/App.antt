-- ===== src/App.antt =====
-- The app actor of internal/app/app-actor.go: it starts and watches the other actors, and makes of
-- each status report and each batch of events one message for the remote actor.
pub mod Messages
pub mod Group
mod Examples
use go_gwiot.Prelude.{
  String, Bool, true, false, ◌&&◌, not, Option, none, some, List, [], ◌∷◌, ◌++◌, Outcome, ok, panic,
  ◌>>=◌, str_eq, if◌then◌else◌,
}
use go_gwiot.Prelude.Bytes.{Bytes, ascii, bytes_eq}
use go_gwiot.State.Value.{
  ℤ, pos, Value, null, int, string, uuid, Fields, end, field, get_nil, put, is_null,
}
use go_gwiot.Remote.Prepare.{RemoteMsg2}

-- A pid is its identifier. `propsRemote` is left out: it says how to make the remote actor.
pub record App : Type 0 where
  pub pid_keycloak : Option Bytes
  pub pid_remote : Option Bytes
  pub sn_dev : String

unfoldable pub new_app : App
new_app = record { pid_keycloak = none; pid_remote = none; sn_dev = "" }

-- How the request to the keycloak actor for the group ends.
pub data KeycloakReply : Type 0 where
  wait_error : KeycloakReply
  answered : Bytes → KeycloakReply

-- A nil `*StatusMsg` is `none`.
pub data AppIn : Type 0 where
  started : AppIn
  keycloak_address_request : AppIn
  terminated : Bytes → AppIn
  group_id_request : AppIn
  status_msg : Option Fields → AppIn
  events_msg : List Fields → AppIn
  stopping : AppIn
  error_remote : AppIn

pub data AppOut : Type 0 where
  to_remote : Option Bytes → RemoteMsg2 → AppOut
  keycloak_address : Bytes → AppOut
  group_id : Bytes → AppOut
  watch : Bytes → AppOut
  poison_sender : AppOut

-- What the world answers while one message is handled.
pub record World : Type 0 where
  pub status_spawned : Bool
  pub events_spawned : Bool
  pub has_keycloak_url : Bool  -- `len(keyc.Keycloakurl) > 0`
  pub keycloak : Option Bytes  -- the pid that `SpawnNamed` returns, `none` with an error
  pub remote : Option Bytes
  pub reply : KeycloakReply
  pub muuid : Bytes  -- `uuid.NewUUID()`, zero with an error
  pub hostname : String

-- `MarshalJSON` leaves out the nil fields.
unfoldable pub drop_nil : Fields → Fields
drop_nil end = end
drop_nil (field k v m) = let rest = drop_nil m in if is_null v then rest else field k v rest

-- `json.Marshal` of a map and of a list of maps; `none` is an error,
-- with which it returns no bytes.
module _ (marshal_state : Fields → Option Bytes) (marshal_events : List Fields → Option Bytes) where
  -- `json.Marshal(stateMsg)`, through `MarshalJSON`; the outer Marshal takes out the blank.
  unfoldable pub state_json : Fields → Bytes
  unfolding drop_nil
  state_json m = elim (marshal_state (drop_nil m)) [
    | none ↦ []
    | some j ↦ ascii "{\"state\":" ++ j ++ ascii "}"
  ]

  unfoldable pub events_json : List Fields → Bytes
  events_json es = elim (marshal_events es) [
    | none ↦ []
    | some j ↦ ascii "{\"events\":" ++ j ++ ascii "}"
  ]

  -- `messagesVersion`
  abbrev messages_version : Value
  messages_version = int (pos 3)

  abbrev pub identified : World → Fields → Fields
  identified w m = put (put m "muuid" (uuid w.muuid)) "v" messages_version

  abbrev device_name : Value → String → String
  device_name (string v) old = v
  device_name _ old = old

  abbrev pub message : Fields → List Fields → RemoteMsg2
  message m es = record {
    state = state_json m;
    events = events_json es;
    content = [];
    version = pos 2;
  }

  abbrev id_of : Option Bytes → Bytes
  id_of none = []
  id_of (some p) = p

  spawn_remote : World → App → List AppOut → Outcome (App × List AppOut)
  spawn_remote w app out = elim w.remote [
    | none ↦ panic
    | some p ↦ ok (record app { pid_remote = some p }, out)
  ]

  start : World → App → Outcome (App × List AppOut)
  unfolding spawn_remote
  start w app = if not w.status_spawned then panic else if not w.events_spawned then panic else (do
    app' ←
        if w.has_keycloak_url
        then elim w.keycloak [ none ↦ panic | some p ↦ ok (record app { pid_keycloak = some p }) ]
        else ok app
    spawn_remote w app' (watch (id_of w.remote) ∷ []))

  group : World → App → List AppOut
  group w app = elim app.pid_keycloak [
    | none ↦ []
    | some p ↦ elim w.reply [ wait_error ↦ [] | answered v ↦ group_id v ∷ [] ]
  ]

  unfoldable pub receive : World → AppIn → App → Outcome (App × List AppOut)
  unfolding start group spawn_remote
  receive w started app = start w app
  receive w keycloak_address_request app =
      ok (app, elim app.pid_keycloak [ none ↦ [] | some p ↦ keycloak_address p ∷ [] ])
  receive w (terminated who) app =
      if bytes_eq who (id_of app.pid_remote) then spawn_remote w app [] else ok (app, [])
  receive w group_id_request app = ok (app, group w app)
  receive w (status_msg none) app = panic
  receive w (status_msg (some msg)) app = ok (
    record app { sn_dev = device_name (get_nil msg "sDv") app.sn_dev },
    to_remote app.pid_remote (message (identified w msg) []) ∷ [],
  )
  receive w (events_msg es) app =
      let name = if str_eq app.sn_dev "" then w.hostname else app.sn_dev in
      ok (
        record app { sn_dev = name },
        to_remote app.pid_remote (message (identified w (field "sDv" (string name) end)) es) ∷ [],
      )
  receive w stopping app = ok (app, [])
  receive w error_remote app = ok (app, poison_sender ∷ [])
