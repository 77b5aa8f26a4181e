-- ===== src/RemoteNats/Examples.antt =====
-- Runs of the NATS client, and its theorems at concrete inputs.
use go_gwiot.Prelude.{◌≡◌, refl, true, false, none, some, List, [], ◌∷◌, ok, ltb, arith, not}
use go_gwiot.Prelude.Bytes.{Bytes, ascii}
use go_gwiot.State.Value.{pos}
use go_gwiot.Remote.Prepare.{RemoteMsg2, prepare_msg}
use go_gwiot.Keyc
use go_gwiot.Keyc.{KeycloakActor, Token, token, token_request}
use go_gwiot.RemoteNats.{
  RemoteActor, World, RemoteIn, RemoteOut, token_reply, address, started, reconnect_remote,
  remote_msg2, publish, self_reconnect, self_verify_replay, new_remote, disable_replay, receive,
  after, run, tick, send_msg, backup, closed_first,
}
use go_gwiot.RemoteNats.Publishing.{Fate, run-Fate}
use go_gwiot.RemoteNats.Rate.{attempts, Spaced, attempts-Spaced}
use go_gwiot.RemoteNats.Tokens.{start-no_source, reconnect-sourced}

abbrev good_token : Token
good_token = record { access_token = ascii "abc"; expiry = 1000000000000 }

-- The keycloak actor before its first token source, and what it is asked.
abbrev keycloak : KeycloakActor
keycloak = record { username = []; password = []; has_token_source = false; has_keyc = false }

abbrev keycloak_world : Keyc.World
keycloak_world = record {
  held = some good_token;
  server = true;
  password_accepted = true;
  sourced = true;
  user_info = none;
  formatted = λ v. [];
}

abbrev world : World
world = record {
  clock = 50000000000;
  hostname = ascii "FLO-1";
  quoted_host = ascii "\"FLO-1\"";
  has_keycloak_url = true;
  address_reply = address;
  reply = token_reply none;
  is_connected = true;
  still_connected = true;
  asks_token = true;
  connects = true;
  has_stream = true;
  acks = λ i. not (ltb i 2);
  opens = true;
  unix_nano = 7;
}

abbrev fresh : RemoteActor
fresh = record {
  test = false;
  has_conn = false;
  token = none;
  last_reconnect = 0;
  disable_replay = false;
  is_database_open = false;
  has_db = false;
  quit_open = false;
}

abbrev message : RemoteMsg2
message = record { state = []; events = []; content = ascii "x"; version = pos 1 }

-- With a token at hand the actor connects, and publishes three times before it is acknowledged.
abbrev given : World
given = record world { reply = token_reply (some good_token) }

abbrev up : RemoteActor
up = record fresh { has_conn = true; token = some good_token; quit_open = true }

after-started : run ((given, started) ∷ []) (disable_replay false (new_remote false)) ≡ up
unfolding run after disable_replay new_remote
after-started = refl

abbrev copy : RemoteOut
copy = publish (ascii "Events.Offline") (ascii "FLO-1") (ascii "x")

receive-third : receive world (remote_msg2 message) up ≡ ok (up, copy ∷ copy ∷ copy ∷ [])
unfolding receive prepare_msg send_msg
receive-third = refl

tick-quiet : tick world fresh ≡ []
unfolding tick
tick-quiet = refl

-- A message that comes before there is a connection.
receive-lost : receive world (remote_msg2 message) fresh ≡ ok (fresh, self_reconnect ∷ [])
unfolding receive prepare_msg backup
receive-lost = refl

run-lost :
    receive world (remote_msg2 message) (run [] (disable_replay false (new_remote false)))
    ≡ ok (fresh, self_reconnect ∷ [])
unfolding receive prepare_msg backup run disable_replay new_remote
run-lost = refl

run-Fate_example :
    (content : Bytes) × (prepare_msg world.quoted_host message ≡ ok content)
    × Fate world
        (run [] (disable_replay false (new_remote false)))
        content
        (fresh, self_reconnect ∷ [])
run-Fate_example = run-Fate false false [] world message fresh (self_reconnect ∷ []) run-lost

-- Two requests to connect, of which the second comes too early.
abbrev offline : World
offline = record given { connects = false; is_connected = false }

abbrev steps : List (World × RemoteIn)
steps =
    (offline, reconnect_remote)
    ∷ (record offline { clock = 60000000000 }, reconnect_remote)
    ∷ (record offline { clock = 90000000000 }, reconnect_remote)
    ∷ []

attempts-steps : attempts steps fresh ≡ 50000000000 ∷ 90000000000 ∷ []
unfolding attempts after
attempts-steps = refl

attempts-Spaced_example : Spaced 0 (attempts steps fresh)
attempts-Spaced_example = attempts-Spaced steps fresh

keycloak-first :
    Keyc.receive keycloak_world token_request keycloak
    ≡ (record keycloak { has_token_source = true; has_keyc = true }, token none ∷ [])
unfolding Keyc.receive
keycloak-first = refl

start-no_source_example :
    (ps' : RemoteActor) × (receive world started fresh ≡ ok (ps', closed_first world fresh))
    × (ps'.token ≡ none)
    × (ps'.has_conn ≡ fresh.has_conn)
start-no_source_example =
    start-no_source keycloak_world keycloak world fresh refl refl refl (unfold Keyc.receive in refl)

reconnect-sourced_example :
    receive given reconnect_remote fresh
    ≡ ok (
      record fresh { has_conn = true; token = some good_token; last_reconnect = 50000000000 },
      self_verify_replay ∷ [],
    )
reconnect-sourced_example =
    reconnect-sourced keycloak_world keycloak_world keycloak given fresh good_token
      (unfold Keyc.receive in refl) refl refl refl (omega arith) refl refl
      (unfold Keyc.receive in refl) refl
