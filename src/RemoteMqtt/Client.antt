-- ===== src/RemoteMqtt/Client.antt =====
-- The MQTT client that the actor makes, of internal/remote-mqtt/client-mqtt.go: its options, and how it
-- connects. `NewClient` of the library takes the options.
use go_gwiot.Prelude.{
  ℕ, ◌≡◌, refl, Bool, true, false, not, Option, none, some, [], ◌∷◌, ◌++◌, ◌⊎◌, inl, inr,
  if◌then◌else◌,
}
use go_gwiot.Prelude.Bytes.{Bytes, ascii}
use go_gwiot.Remote.Numbers.{decimal}
use go_gwiot.Keyc.{Token}

pub record ClientOptions : Type 0 where
  pub broker : Bytes
  pub connect_retry : Bool
  pub auto_reconnect : Bool
  pub login : Option (Bytes × Bytes)  -- user name and password
  pub protocol_version : ℕ
  pub order_matters : Bool
  pub client_id : Bytes

-- `utils.RemoteBrokerURL`, `utils.Hostname()` and `time.Now().Unix()`
pub record Surroundings : Type 0 where
  pub broker_url : Bytes
  pub hostname : Bytes
  pub unix : ℕ

-- The name of the client is `fmt.Sprintf("%s-%d", …)`.
abbrev pub client_name : Surroundings → Bytes
client_name w = w.hostname ++ ascii "-" ++ decimal w.unix

abbrev pub login_of : Option Token → Bytes → Bytes → Option (Bytes × Bytes)
login_of (some tk) user pass = some (ascii "unused", tk.access_token)
login_of none [] pass = none
login_of none (c ∷ user) pass = some (c ∷ user, pass)

-- `client`
unfoldable pub client : Surroundings → Option Token → Bytes → Bytes → ClientOptions
client w tk user pass = record {
  broker = w.broker_url;
  connect_retry = true;
  auto_reconnect = false;
  login = login_of tk user pass;
  protocol_version = 4;
  order_matters = true;
  client_id = client_name w;
}

unfoldable pub client_with_jwt : Surroundings → Option Token → ClientOptions
client_with_jwt w tk = client w tk [] []

unfoldable pub client_with_user_pass : Surroundings → Bytes → Bytes → ClientOptions
client_with_user_pass w user pass = client w none user pass

unfoldable pub client_without_auth : Surroundings → ClientOptions
client_without_auth w = client w none [] []

-- `connect`: how the wait for the token of the connection ends.
unfoldable pub connect : Bool → Bool → Bool
connect timely failed = if timely then not failed else false

-- With a JWT the token is the password; without one, or with no user, there is no login.
pub client_with_jwt-login :
    (w : Surroundings) (tk : Option Token) (pass : Bytes)
    → ((t : Token) × (tk ≡ some t)
        × ((client_with_jwt w tk).login ≡ some (ascii "unused", t.access_token)))
      ⊎ ((tk ≡ none) × (client_with_jwt w tk ≡ client_without_auth w))
unfolding client_with_jwt client_without_auth client
client_with_jwt-login w none pass = inr (refl, refl)
client_with_jwt-login w (some t) pass = inl (t, refl, refl)

pub client_without_auth-no_user :
    (w : Surroundings) (pass : Bytes) → client_with_user_pass w [] pass ≡ client_without_auth w
unfolding client_with_user_pass client_without_auth client
client_without_auth-no_user w pass = refl
