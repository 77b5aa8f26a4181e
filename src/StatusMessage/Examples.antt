-- ===== src/StatusMessage/Examples.antt =====
-- The JSON text of a status at concrete values.
use go_gwiot.Prelude.{◌≡◌, refl, some, none, [], ◌∷◌, ◌++◌}
use go_gwiot.Prelude.Bytes.{ascii}
use go_gwiot.State.Value.{pos, null}
use go_gwiot.StatusMessage.{Status, Encoding, object_text, replace_keys}

-- Texts as they are, between quotes, and one text for the values of each other type.
abbrev json : Encoding
json = record {
  value = λ v. some (ascii "null");
  text = λ s. some (ascii "\"" ++ ascii s ++ ascii "\"");
  number = λ x. some (ascii "1.5");
  text_lists = λ m. some (ascii "{}");
  texts = λ m. some (ascii "{}");
  integer = λ n. some (ascii "0");
  natural = λ n. some (ascii "7");
  numbers = λ m. some (ascii "{}");
  number_list = λ l. some (ascii "[]");
  text_list = λ l. some (ascii "[]");
  maps = λ l. some (ascii "[]");
}

abbrev status : Status
status = record {
  gstatus = null;
  sn_dev = "x";
  sn_modem = "x";
  sn_display = "x";
  time_stamp = record { bits = 0 };
  ip_mask = [];
  hostname = "x";
  app_vers = [];
  sim_status = "x";
  sim_imei = pos 0;
  usos_transp_count = pos 0;
  errs_transp_count = pos 0;
  volt = [];
  mac = "x";
  app_tables_vers = [];
  cpu_status = [];
  dns = [];
  up_time = "x";
  device_data_list = [];
  gateway = "x";
  type_dev = "x";
  ruta = [];
  turnstile_up_accum = 7;
  turnstile_down_accum = 7;
  front_door_passenger_up_accum = 7;
  front_door_passenger_down_accum = 7;
  back_door_passenger_up_accum = 7;
  back_door_passenger_down_accum = 7;
  turnstile_battery = pos 0;
  turnstile_obstruction = pos 0;
  turnstile_anomalies_accum = 7;
  ref_system = pos 0;
}

infinite : replace_keys (record json { number = λ x. none }) status ≡ none
unfolding replace_keys
infinite = refl

first_members :
    object_text (("h", json.text "x") ∷ ("tsUA", json.natural 7) ∷ [])
    ≡ some (ascii "{\"h\":\"x\",\"tsUA\":7}")
unfolding object_text
first_members = refl
