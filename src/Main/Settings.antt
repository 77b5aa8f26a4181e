-- ===== src/Main/Settings.antt =====
-- What getENV leaves, and what the app actor makes of it.
use go_gwiot.Prelude.{
  String, ◌≡◌, ◌≢◌, refl, ap, ◌∙◌, true, false, not, Option, some, List, ok, str_eq, eq_iff, arith,
  ◌⊎◌, inl, inr, Option-cases,
}
use go_gwiot.Prelude.Bytes.{Bytes}
use go_gwiot.State.Value.{Fields}
use go_gwiot.App
use go_gwiot.App.{App, AppOut, started, group_id_request}
use go_gwiot.Main.{Config, defaults, setting, get_env}

-- The flag, if it was given; or the variable, if it is set; or the default.
abbrev pub IsResolved : String → String → String → String → Type 0
IsResolved flag variable fallback result =
    ((flag ≢ "") × (result ≡ flag))
    ⊎ ((flag ≡ "") × (variable ≢ "") × (result ≡ variable))
    ⊎ ((flag ≡ "") × (variable ≡ "") × (result ≡ fallback))

setting-IsResolved :
    (flag variable fallback : String)
    → IsResolved flag variable fallback (setting flag variable fallback)
unfolding setting
setting-IsResolved flag variable fallback = ground (arith, eq_iff flag "", eq_iff variable "")

setting-filled :
    (flag variable fallback : String)
    → str_eq fallback "" ≡ false
    → str_eq (setting flag variable fallback) "" ≡ false
unfolding setting
setting-filled flag variable fallback h = ground (arith, h)

setting-setting :
    (flag variable fallback variable' : String)
    → str_eq fallback "" ≡ false
    → setting (setting flag variable fallback) variable' fallback ≡ setting flag variable fallback
setting-setting flag variable fallback variable' h =
    let filled = setting-filled flag variable fallback h in unfold setting in rw filled

-- getENV gives each of the six settings by its flag, if that is not empty; or by its own variable of the
-- environment, if that is not empty; or by its default. A second getENV changes nothing, whatever the
-- environment has become.
pub get_env-IsResolved :
    (getenv getenv' : String → String) (c : Config)
    → let c' = get_env getenv c in
      IsResolved c.keycloak_url
        (getenv "KEYCLOAK_URL_DEVICES")
        defaults.keycloak_url
        c'.keycloak_url
      × IsResolved c.redirect_url
          (getenv "REDIRECT_URL_DEVICES")
          defaults.redirect_url
          c'.redirect_url
      × IsResolved c.remote_broker_url
          (getenv "BROKER_URL_DEVICES")
          defaults.remote_broker_url
          c'.remote_broker_url
      × IsResolved c.realm (getenv "REALM_DEVICES") defaults.realm c'.realm
      × IsResolved c.client_secret
          (getenv "CLIENTSECRET_DEVICES")
          defaults.client_secret
          c'.client_secret
      × IsResolved c.client_id (getenv "CLIENTID_DEVICES") defaults.client_id c'.client_id
      × (get_env getenv' c' ≡ c')
unfolding get_env
get_env-IsResolved getenv getenv' c = (
  setting-IsResolved _ _ _,
  setting-IsResolved _ _ _,
  setting-IsResolved _ _ _,
  setting-IsResolved _ _ _,
  setting-IsResolved _ _ _,
  setting-IsResolved _ _ _,
  λ i. record {
    keycloak_url =
        setting-setting c.keycloak_url (getenv "KEYCLOAK_URL_DEVICES") defaults.keycloak_url
          (getenv' "KEYCLOAK_URL_DEVICES") refl i;
    redirect_url =
        setting-setting c.redirect_url (getenv "REDIRECT_URL_DEVICES") defaults.redirect_url
          (getenv' "REDIRECT_URL_DEVICES") refl i;
    remote_broker_url =
        setting-setting c.remote_broker_url (getenv "BROKER_URL_DEVICES") defaults.remote_broker_url
          (getenv' "BROKER_URL_DEVICES") refl i;
    realm =
        setting-setting c.realm (getenv "REALM_DEVICES") defaults.realm (getenv' "REALM_DEVICES")
          refl i;
    client_secret =
        setting-setting c.client_secret (getenv "CLIENTSECRET_DEVICES") defaults.client_secret
          (getenv' "CLIENTSECRET_DEVICES") refl i;
    client_id =
        setting-setting c.client_id (getenv "CLIENTID_DEVICES") defaults.client_id
          (getenv' "CLIENTID_DEVICES") refl i;
  },
)

-- After getENV there is always a keycloak server to ask: the app actor that then starts without a panic
-- has spawned the keycloak actor and knows its address.
pub receive-started_keycloak :
    (ms : Fields → Option Bytes) (me : List Fields → Option Bytes) (getenv : String → String)
    (c : Config) (w : App.World) (app app' : App) (out : List AppOut)
    → w.has_keycloak_url ≡ not (str_eq (get_env getenv c).keycloak_url "")
    → App.receive ms me w started app ≡ ok (app', out)
    → (p : Bytes) × (w.keycloak ≡ some p) × (app'.pid_keycloak ≡ some p)
unfolding get_env App.receive
receive-started_keycloak ms me getenv c w app app' out u h =
    let given : w.has_keycloak_url ≡ true =
      u
      ∙ ap not (
          setting-filled c.keycloak_url (getenv "KEYCLOAK_URL_DEVICES") defaults.keycloak_url
            refl) in
    elim (Option-cases w.keycloak) [
      | inl e ↦ absurd (ground arith)
      | inr (p, e) ↦ (p, e, ground arith)
    ]
