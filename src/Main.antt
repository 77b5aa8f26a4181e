-- ===== src/Main.antt =====
-- The program's entry, main/main.go: the settings of getENV, with the defaults of internal/env/sibus.go,
-- and the remote actor that main makes of the flags. What follows is the actor system's: the gateway to
-- the local broker and the app actor are started.
pub mod Settings
pub mod Wiring
mod Examples
use go_gwiot.Prelude.{String, Bool, true, false, str_eq, not, Option, none, some, if◌then◌else◌}
use go_gwiot.State.Value.{ℤ}
use go_gwiot.Remote.Replay.{is_positive}
use go_gwiot.Remote.Actor as Remote
use go_gwiot.RemoteMqtt
use go_gwiot.RemoteNats

-- The package variables that the flags set and getENV completes.
pub record Config : Type 0 where
  pub keycloak_url : String
  pub redirect_url : String
  pub remote_broker_url : String
  pub realm : String
  pub client_secret : String
  pub client_id : String

-- internal/env/sibus.go
abbrev pub defaults : Config
defaults = record {
  keycloak_url = "https://sibus.nebulae.com.co/auth";
  redirect_url = "https://sibus.nebulae.com.co";
  remote_broker_url = "wss://sibus.nebulae.com.co/mqtt";
  realm = "DEVICES";
  client_secret = "a367c3bc-089e-4b46-8df9-439bf814557e";
  client_id = "devices";
}

-- One of the six parts of getENV: the flag, the variable of the environment, the default.
unfoldable pub setting : String → String → String → String
setting flag variable fallback =
    if str_eq flag "" then (if str_eq variable "" then fallback else variable) else flag

-- `getENV`; `os.Getenv` gives "" for a variable that is not set.
unfoldable pub get_env : (String → String) → Config → Config
unfolding setting
get_env getenv c = record {
  keycloak_url = setting c.keycloak_url (getenv "KEYCLOAK_URL_DEVICES") defaults.keycloak_url;
  redirect_url = setting c.redirect_url (getenv "REDIRECT_URL_DEVICES") defaults.redirect_url;
  remote_broker_url =
      setting c.remote_broker_url (getenv "BROKER_URL_DEVICES") defaults.remote_broker_url;
  realm = setting c.realm (getenv "REALM_DEVICES") defaults.realm;
  client_secret = setting c.client_secret (getenv "CLIENTSECRET_DEVICES") defaults.client_secret;
  client_id = setting c.client_id (getenv "CLIENTID_DEVICES") defaults.client_id;
}

-- The flags of `init` that main reads. `isnats` is no flag: it stays false, since the line that would
-- define it is commented out.
pub record Flags : Type 0 where
  pub test : Bool
  pub version : Bool
  pub disable_retransmission : Bool
  pub retry_days : ℤ
  pub isnats : Bool

-- `propsRemote`: the actor that it makes, with the client's actor of the MQTT build.
pub data RemoteProps : Type 0 where
  mqtt : RemoteMqtt.RemoteActor → Remote.RemoteActor → RemoteProps
  nats : RemoteNats.RemoteActor → RemoteProps

abbrev pub with_days : ℤ → Remote.RemoteActor → Remote.RemoteActor
with_days days ps = if is_positive days then Remote.retry_days_replay days ps else ps

abbrev pub with_replay : Bool → Remote.RemoteActor → Remote.RemoteActor
with_replay disable ps = if disable then Remote.disable_replay true ps else ps

-- `main`, up to the spawning of the app actor; `none` is the end that the flag `version` asks for.
-- The JWT configuration is always given.
unfoldable pub main : Flags → Option RemoteProps
main f =
    if f.version
    then none
    else if not f.isnats
    then some (
        mqtt (RemoteMqtt.new_remote f.test true)
          (with_days f.retry_days (with_replay f.disable_retransmission Remote.new_remote)))
    else some (
        nats (
          if f.disable_retransmission
          then RemoteNats.disable_replay true (RemoteNats.new_remote f.test)
          else RemoteNats.new_remote f.test))
