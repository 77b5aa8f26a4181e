-- ===== src/Hostname/Examples.antt =====
-- The name of a device at concrete files, and the theorems there.
use go_gwiot.Prelude.{◌≡◌, ◌≢◌, refl, true, false, some, none, [], ◌∷◌, filter}
use go_gwiot.Prelude.Bytes.{ascii, bytes_eq}
use go_gwiot.RemoteMqtt
use go_gwiot.RemoteMqtt.{topic_of, pending}
use go_gwiot.Hostname.{World, split, lookup, is_allowed, non_empty_or, hostname, set_hostname}
use go_gwiot.Hostname.Named.{hostname-named}

abbrev world : World
world = record {
  file = some (ascii "# device" ∷ ascii "sn-dev=FLO 1/#=x" ∷ ascii "sn-modem=7" ∷ []);
  os_hostname = some (ascii "localhost");
}

hostname-file : hostname world [] ≡ some (ascii "FLO1")
unfolding hostname split bytes_eq
hostname-file = refl

hostname-kept : hostname world (set_hostname (ascii "TEST-2") []) ≡ some (ascii "TEST-2")
unfolding hostname set_hostname
hostname-kept = refl

hostname-no_system : hostname (record { file = world.file; os_hostname = none }) [] ≡ none
unfolding hostname
hostname-no_system = refl

hostname-named_example :
    hostname world []
    ≡ some (non_empty_or (filter is_allowed (ascii "FLO 1/#")) (ascii "localhost"))
unfolding split lookup bytes_eq
hostname-named_example =
    hostname-named world (ascii "# device" ∷ []) (ascii "sn-modem=7" ∷ []) (ascii "FLO 1/#")
      (ascii "=x") (ascii "localhost") refl refl
      (refl, (refl, (refl, (refl, (refl, (refl, (refl, tt))))))) refl (refl, tt)

abbrev mqtt_world : RemoteMqtt.World
mqtt_world = record {
  has_parent = true;
  has_sender = true;
  clock = 0;
  hostname = ascii "FLO1";
  is_connection_open = true;
  kept_token = false;
  new_token_source = false;
  new_token = false;
  connects = true;
  waits = λ i. pending;
}

other_name : ascii "FLO1" ≢ ascii "localhost"
other_name e = cc
