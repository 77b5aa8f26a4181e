-- ===== src/StatusMessage.antt =====
-- `Status` and its `ReplaceKeys` of messages/status.go: the report of a device as a struct, and its
-- JSON text with short names. A Go map is the list of its entries in the order of the text.
mod Examples
use go_gwiot.Prelude.{ℕ, String, Option, none, some, List, [], ◌∷◌, ◌++◌}
use go_gwiot.Prelude.Bytes.{Bytes, ascii}
use go_gwiot.State.Value.{ℤ, Value, Float64, Fields}

pub record Status : Type 0 where
  pub gstatus : Value
  pub sn_dev : String
  pub sn_modem : String
  pub sn_display : String
  pub time_stamp : Float64
  pub ip_mask : List (String × List String)
  pub hostname : String
  pub app_vers : List (String × String)
  pub sim_status : String
  pub sim_imei : ℤ
  pub usos_transp_count : ℤ
  pub errs_transp_count : ℤ
  pub volt : List (String × Float64)
  pub mac : String
  pub app_tables_vers : List (String × String)
  pub cpu_status : List Float64
  pub dns : List String
  pub up_time : String
  pub device_data_list : List Fields
  pub gateway : String
  pub type_dev : String
  pub ruta : List (String × String)
  pub turnstile_up_accum : ℕ
  pub turnstile_down_accum : ℕ
  pub front_door_passenger_up_accum : ℕ
  pub front_door_passenger_down_accum : ℕ
  pub back_door_passenger_up_accum : ℕ
  pub back_door_passenger_down_accum : ℕ
  pub turnstile_battery : ℤ
  pub turnstile_obstruction : ℤ
  pub turnstile_anomalies_accum : ℕ
  pub ref_system : ℤ

-- `encoding/json` on the types of the fields; `none` is an error, as for a number that is infinite.
pub record Encoding : Type 0 where
  pub value : Value → Option Bytes
  pub text : String → Option Bytes
  pub number : Float64 → Option Bytes
  pub text_lists : List (String × List String) → Option Bytes
  pub texts : List (String × String) → Option Bytes
  pub integer : ℤ → Option Bytes
  pub numbers : List (String × Float64) → Option Bytes
  pub number_list : List Float64 → Option Bytes
  pub text_list : List String → Option Bytes
  pub maps : List Fields → Option Bytes
  pub natural : ℕ → Option Bytes

-- A member of a JSON object: its name and the text of its value.
abbrev pub Member : Type 0
Member = String × Option Bytes

-- The members that are to come, after the first.
unfoldable pub rest_text : List Member → Option Bytes
rest_text [] = some (ascii "}")
rest_text ((name, none) ∷ ms) = none
rest_text ((name, some v) ∷ ms) = elim (rest_text ms) [
  | none ↦ none
  | some text ↦ some (ascii ",\"" ++ ascii name ++ ascii "\":" ++ v ++ text)
]

-- `json.Marshal` of a struct: its fields in order, or the error of one of them.
unfoldable pub object_text : List Member → Option Bytes
unfolding rest_text
object_text [] = some (ascii "{}")
object_text ((name, none) ∷ ms) = none
object_text ((name, some v) ∷ ms) = elim (rest_text ms) [
  | none ↦ none
  | some text ↦ some (ascii "{\"" ++ ascii name ++ ascii "\":" ++ v ++ text)
]

-- The fields with the names of `Status`.
unfoldable pub members : Encoding → Status → List Member
members json s =
    ("gstatus", json.value s.gstatus)
    ∷ ("sn-dev", json.text s.sn_dev)
    ∷ ("sn-modem", json.text s.sn_modem)
    ∷ ("sn-display", json.text s.sn_display)
    ∷ ("timeStamp", json.number s.time_stamp)
    ∷ ("ipMaskMap", json.text_lists s.ip_mask)
    ∷ ("hostname", json.text s.hostname)
    ∷ ("AppVers", json.texts s.app_vers)
    ∷ ("simStatus", json.text s.sim_status)
    ∷ ("simImei", json.integer s.sim_imei)
    ∷ ("usosTranspCount", json.integer s.usos_transp_count)
    ∷ ("errsTranspCount", json.integer s.errs_transp_count)
    ∷ ("volt", json.numbers s.volt)
    ∷ ("mac", json.text s.mac)
    ∷ ("AppTablesVers", json.texts s.app_tables_vers)
    ∷ ("cpuStatus", json.number_list s.cpu_status)
    ∷ ("dns", json.text_list s.dns)
    ∷ ("upTime", json.text s.up_time)
    ∷ ("deviceDataList", json.maps s.device_data_list)
    ∷ ("gateway", json.text s.gateway)
    ∷ ("type-dev", json.text s.type_dev)
    ∷ ("ruta", json.texts s.ruta)
    ∷ ("turnstileUpAccum", json.natural s.turnstile_up_accum)
    ∷ ("turnstileDownAccum", json.natural s.turnstile_down_accum)
    ∷ ("frontDoorPassengerUpAccum", json.natural s.front_door_passenger_up_accum)
    ∷ ("frontDoorPassengerDownAccum", json.natural s.front_door_passenger_down_accum)
    ∷ ("backDoorPassengerUpAccum", json.natural s.back_door_passenger_up_accum)
    ∷ ("backDoorPassengerDownAccum", json.natural s.back_door_passenger_down_accum)
    ∷ ("turnstileBattery", json.integer s.turnstile_battery)
    ∷ ("turnstileObstruction", json.integer s.turnstile_obstruction)
    ∷ ("turnstileAnomaliesAccum", json.natural s.turnstile_anomalies_accum)
    ∷ ("refSys", json.integer s.ref_system)
    ∷ []

-- `ReplaceKeys`
unfoldable pub replace_keys : Encoding → Status → Option Bytes
unfolding object_text
replace_keys json s = object_text (
    ("gstatus", json.value s.gstatus)
    ∷ ("sn-dev", json.text s.sn_dev)
    ∷ ("sn-modem", json.text s.sn_modem)
    ∷ ("sn-display", json.text s.sn_display)
    ∷ ("timeStamp", json.number s.time_stamp)
    ∷ ("ipMaskMap", json.text_lists s.ip_mask)
    ∷ ("h", json.text s.hostname)
    ∷ ("AVer", json.texts s.app_vers)
    ∷ ("sS", json.text s.sim_status)
    ∷ ("sI", json.integer s.sim_imei)
    ∷ ("uTC", json.integer s.usos_transp_count)
    ∷ ("eTC", json.integer s.errs_transp_count)
    ∷ ("vo", json.numbers s.volt)
    ∷ ("m", json.text s.mac)
    ∷ ("ATVer", json.texts s.app_tables_vers)
    ∷ ("cS", json.number_list s.cpu_status)
    ∷ ("dns", json.text_list s.dns)
    ∷ ("uT", json.text s.up_time)
    ∷ ("dD", json.maps s.device_data_list)
    ∷ ("g", json.text s.gateway)
    ∷ ("tDv", json.text s.type_dev)
    ∷ ("ruta", json.texts s.ruta)
    ∷ ("tsUA", json.natural s.turnstile_up_accum)
    ∷ ("tsDA", json.natural s.turnstile_down_accum)
    ∷ ("fDPUA", json.natural s.front_door_passenger_up_accum)
    ∷ ("fDPDA", json.natural s.front_door_passenger_down_accum)
    ∷ ("bPUA", json.natural s.back_door_passenger_up_accum)
    ∷ ("bDPDA", json.natural s.back_door_passenger_down_accum)
    ∷ ("tsBT", json.integer s.turnstile_battery)
    ∷ ("tsOB", json.integer s.turnstile_obstruction)
    ∷ ("tsAN", json.natural s.turnstile_anomalies_accum)
    ∷ ("refSys", json.integer s.ref_system)
    ∷ [])
