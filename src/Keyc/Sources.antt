-- ===== src/Keyc/Sources.antt =====
-- The sources of tokens of internal/keyc/keycloak.go and internal/remote-mqtt/jwt.go: what is asked of the
-- clients of HTTP, OpenID Connect and OAuth 2, which are libraries.
use go_gwiot.Prelude.{ℕ, ◌≡◌, refl, Option, none, some, List, [], ◌∷◌, ◌++◌, some-injective, ◌↔◌}
use go_gwiot.Prelude.Bytes.{Bytes, ascii}
use go_gwiot.Certificates.{Pool}
use go_gwiot.Keyc.{Token}

-- The variables of the package, which the flags set.
pub record Settings : Type 0 where
  pub keycloakurl : Bytes
  pub clientid : Bytes
  pub client_secret : Bytes
  pub redirecturl : Bytes
  pub realm : Bytes

-- `keycloak.ServerConfig`
pub record ServerConfig : Type 0 where
  pub url : Bytes
  pub client_id : Bytes
  pub client_secret : Bytes
  pub redirect_url : Bytes
  pub realm : Bytes

-- `newKeyConfig`
unfoldable pub new_key_config : Settings → ServerConfig
new_key_config s = record {
  url = s.keycloakurl;
  client_id = s.clientid;
  client_secret = s.client_secret;
  redirect_url = s.redirecturl;
  realm = s.realm;
}

-- `http.Client` with its transport, as far as the code sets them. Times are seconds, and 0 is no limit.
pub record HttpClient : Type 0 where
  pub tls_config : Pool
  pub timeout : ℕ
  pub dial_timeout : ℕ
  pub keep_alive : ℕ
  pub tls_handshake_timeout : ℕ
  pub expect_continue_timeout : ℕ

-- `newHTTPContext`: the client that the context carries.
unfoldable pub new_http_context : Pool → Option HttpClient → HttpClient
new_http_context local_cert (some client) = client
new_http_context local_cert none = record {
  tls_config = local_cert;
  timeout = 30;
  dial_timeout = 0;
  keep_alive = 0;
  tls_handshake_timeout = 0;
  expect_continue_timeout = 0;
}

-- The client of `TokenSource` of jwt.go.
unfoldable pub jwt_client : Pool → HttpClient
jwt_client local_cert = record {
  tls_config = local_cert;
  timeout = 0;
  dial_timeout = 30;
  keep_alive = 30;
  tls_handshake_timeout = 20;
  expect_continue_timeout = 1;
}

infixl 5 ◌>>=◌
abbrev ◌>>=◌ {ℓ κ} : {A : Type ℓ} {B : Type κ} → Option A → (A → Option B) → Option B
some a >>= f = f a
none >>= f = none

>>=-eq-some :
    {A B : Type 0} (c : Option A) (f : A → Option B) (y : B)
    → (c >>= f) ≡ some y
    → (x : A) × (c ≡ some x) × (f x ≡ some y)
>>=-eq-some (some x) f y h = (x, refl, h)
>>=-eq-some none f y h = absurd cc

-- `oauth2.Config`
pub record Config (Endpoint : Type 0) : Type 0 where
  pub client_id : Bytes
  pub client_secret : Bytes
  pub endpoint : Endpoint
  pub redirect_url : Bytes
  pub scopes : List Bytes

-- The libraries: `oidc.NewProvider` with the provider's endpoint, `PasswordCredentialsToken`, `none` an
-- error of either, and `config.TokenSource`.
pub record Libraries (Endpoint Source : Type 0) : Type 0 where
  pub provider : HttpClient → Bytes → Option Endpoint
  pub password_token : HttpClient → Config Endpoint → Bytes → Bytes → Option Token
  pub source : HttpClient → Config Endpoint → Token → Source

module _ {Endpoint Source : Type 0} (lib : Libraries Endpoint Source) where
  abbrev pub issuer : Bytes → Bytes → Bytes
  issuer url realm = url ++ ascii "/realms/" ++ realm

  abbrev pub config_of : Endpoint → Bytes → Bytes → Bytes → Config Endpoint
  config_of endpoint url clientid clientsecret = record {
    client_id = clientid;
    client_secret = clientsecret;
    endpoint = endpoint;
    redirect_url = url;
    scopes = ascii "openid" ∷ [];
  }

  -- `TokenSource`; `none` is an error.
  unfoldable pub token_source :
      HttpClient → Bytes → Bytes → Bytes → Bytes → Bytes → Bytes → Option Source
  token_source ctx username password url realm clientid clientsecret = do
    endpoint ← lib.provider ctx (issuer url realm)
    tk ← lib.password_token ctx (config_of endpoint url clientid clientsecret) username password
    some (lib.source ctx (config_of endpoint url clientid clientsecret) tk)

  -- `TokenSource` of jwt.go
  unfoldable pub jwt_token_source :
      Pool → Bytes → Bytes → Bytes → Bytes → Bytes → Bytes → Option Source
  unfolding token_source
  jwt_token_source local_cert user pass keycloak_url realm clientid clientsecret =
      token_source (jwt_client local_cert) user pass keycloak_url realm clientid clientsecret

  -- A source is had if and only if the provider of the issuer answers and then takes the password, and
  -- it is the one for that provider's endpoint and the token that it gave.
  pub token_source_iff :
      (ctx : HttpClient) (username password url realm clientid clientsecret : Bytes) (s : Source)
      → (token_source ctx username password url realm clientid clientsecret ≡ some s) ↔ (
          (e : Endpoint) × (tk : Token) × (lib.provider ctx (issuer url realm) ≡ some e)
          × (lib.password_token ctx (config_of e url clientid clientsecret) username password
              ≡ some tk)
          × (lib.source ctx (config_of e url clientid clientsecret) tk ≡ s))
  unfolding token_source
  token_source_iff ctx username password url realm clientid clientsecret s = (
    λ h.
        let (e, provided, rest) = >>=-eq-some (lib.provider ctx (issuer url realm)) _ s h in
        let (tk, taken, sourced) =
          >>=-eq-some
            (lib.password_token ctx (config_of e url clientid clientsecret) username password)
            (λ t. some (lib.source ctx (config_of e url clientid clientsecret) t)) s rest in
        (e, tk, provided, taken, some-injective sourced),
    λ (e, tk, provided, taken, sourced). rw (provided, taken, sourced) refl,
  )
