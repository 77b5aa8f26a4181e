-- ===== src/Keyc/Examples.antt =====
-- Runs of the keycloak actor, and its theorems at concrete inputs.
use go_gwiot.Prelude.{◌≡◌, refl, true, false, ◌||◌, ◌&&◌, none, some, [], ◌∷◌, ◌↔◌}
use go_gwiot.Prelude.Bytes.{Bytes, ascii}
use go_gwiot.State.Value.{Value, string, end, field, get}
use go_gwiot.Keyc.{
  Token, KeycloakActor, new_keyc_actor, token_request, group_id_request, token, group_id_response,
  World, receive,
}
use go_gwiot.Keyc.Answers.{HasNoToken, receive-token_request}

abbrev good_token : Token
good_token = record { access_token = ascii "abc"; expiry = 100 }

abbrev text_of : Value → Bytes
text_of v = ascii "fleet"

abbrev world : World
world = record {
  held = some good_token;
  server = true;
  password_accepted = true;
  sourced = true;
  user_info = some (field "group_name" (string "fleet") end);
  formatted = text_of;
}

abbrev fresh : KeycloakActor
fresh = record { username = []; password = []; has_token_source = false; has_keyc = false }

abbrev sourced : KeycloakActor
sourced = record fresh { has_token_source = true; has_keyc = true }

new_keyc_actor-fresh : new_keyc_actor [] [] ≡ fresh
unfolding new_keyc_actor
new_keyc_actor-fresh = refl

receive-first : receive world token_request fresh ≡ (sourced, token none ∷ [])
unfolding receive
receive-first = refl

receive-second : receive world token_request sourced ≡ (sourced, token (some good_token) ∷ [])
unfolding receive
receive-second = refl

receive-group : (receive world group_id_request fresh).1 ≡ group_id_response (ascii "fleet") ∷ []
unfolding receive get
receive-group = refl

receive-token_request_example :
    let out = (receive world token_request sourced).1 in
    ((out ≡ token (some good_token) ∷ [])
      ↔ ((sourced.has_token_source ≡ true) × (world.held ≡ some good_token)))
    × ((out ≡ token none ∷ []) ↔ (
        HasNoToken world sourced
        × ((sourced.has_keyc || world.server) ≡ true)
        × ((world.password_accepted && world.sourced) ≡ true)))
receive-token_request_example = receive-token_request world sourced good_token
