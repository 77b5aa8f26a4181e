-- ===== src/State/Keys.antt =====
-- The three key tables of internal/state/status.go and the tests by them.
use go_gwiot.Prelude.{
  String, Bool, false, ◌||◌, Option, none, some, List, [], ◌∷◌, str_eq, if◌then◌else◌,
}

-- `keys2Abrev`
abbrev pub keys_2_abrev : List (String × String)
keys_2_abrev =
    ("upTime", "uT")
    ∷ ("sn-dev", "sDv")
    ∷ ("sn-modem", "sM")
    ∷ ("sn-display", "sDs")
    ∷ ("timestamp", "t")
    ∷ ("timeStamp", "t")
    ∷ ("ipMaskMap", "iMM")
    ∷ ("hostname", "h")
    ∷ ("simStatus", "sS")
    ∷ ("simImei", "sI")
    ∷ ("usosTranspCount", "uTC")
    ∷ ("sn-wifi", "sW")
    ∷ ("volt", "vo")
    ∷ ("currentValue", "cV")
    ∷ ("frontDoorPassengerUpAccum", "fDPUA")
    ∷ ("frontDoorPassengerDownAccum", "fDPDA")
    ∷ ("backDoorPassengerUpAccum", "bDPUA")
    ∷ ("backDoorPassengerDownAccum", "bDPDA")
    ∷ ("turnstileUpAccum", "tsUA")
    ∷ ("turnstileDownAccum", "tsDA")
    ∷ ("turnstileUpCount", "tsUC")
    ∷ ("turnstileDownCount", "tsDC")
    ∷ ("turnstileBattery", "tsBT")
    ∷ ("turnstileAnomaliesAccum", "tsAN")
    ∷ ("turnstileObstruction", "tsOB")
    ∷ ("highestValue", "hV")
    ∷ ("lowestValue", "lV")
    ∷ ("mac", "m")
    ∷ ("cpuStatus", "cS")
    ∷ ("dns", "dns")
    ∷ ("deviceDataList", "dD")
    ∷ ("totalValue", "tV")
    ∷ ("unitInformation", "uI")
    ∷ ("gateway", "g")
    ∷ ("errsTranspCount", "eTC")
    ∷ ("value", "vl")
    ∷ ("type", "tp")
    ∷ ("gstatus", "gs")
    ∷ ("temperature", "temp")
    ∷ ("AppVers", "AVer")
    ∷ ("libparamoperacioncliente", "lPOC")
    ∷ ("libcontrolregistros", "lCR")
    ∷ ("embedded.libgestionhardware", "elGH")
    ∷ ("libcontrolconsecutivos", "lCC")
    ∷ ("AppUsosTrasnporte", "aUT")
    ∷ ("libcommonentities", "lCE")
    ∷ ("libcontrolmensajeria", "lCM")
    ∷ ("libgestionhardware", "lGH")
    ∷ ("type-dev", "tDv")
    ∷ ("AppTablesVers", "ATVer")
    ∷ ("TablaTrayectos", "TT")
    ∷ ("Trayectos", "TT")
    ∷ ("Class", "LN")
    ∷ ("ListaNegra", "LN")
    ∷ ("Listas restrictivas", "LN")
    ∷ ("Limites de tiempo", "LT")
    ∷ ("TablaLimitesTiempo", "LT")
    ∷ ("Mapa rutas", "MR")
    ∷ ("MapaRutas", "MR")
    ∷ ("Configuracion general", "CG")
    ∷ ("ConfiguracionGeneral", "CG")
    ∷ ("Mensajes de usuario", "MU")
    ∷ ("MensajeUsuario", "MU")
    ∷ ("groupName", "gN")
    ∷ ("additionalData", "aD")
    ∷ ("version", "v")
    ∷ []

-- `keysStatic`
abbrev pub keys_static : List String
keys_static =
    "uTC" ∷ "eTC" ∷ "t" ∷ "sDv" ∷ "tsOB" ∷ "tsBT" ∷ "tsUA" ∷ "tsDA" ∷ "tsAN" ∷ "bDPUA" ∷ "bDPDA"
    ∷ "fDPUA" ∷ "fDPDA" ∷ "AVer" ∷ "pAFC" ∷ "pARC" ∷ "pTRC" ∷ "pABC" ∷ "pTBC" ∷ "pTFC" ∷ "pTFS"
    ∷ "pTRS" ∷ []

-- `keysRemove`
abbrev pub keys_remove : List String
keys_remove = "sM" ∷ "sDs" ∷ "sW" ∷ "sn-cn" ∷ []

unfoldable pub lookup : String → List (String × String) → Option String
lookup k [] = none
lookup k ((j, a) ∷ rest) = if str_eq j k then some a else lookup k rest

unfoldable pub has_key : String → List String → Bool
has_key k [] = false
has_key k (j ∷ rest) = str_eq j k || has_key k rest

-- `if k2, ok := keys2Abrev[k1]; ok { k2 } else { k1 }`
unfoldable pub rename : String → String
unfolding lookup
rename k = elim (lookup k keys_2_abrev) [ none ↦ k | some a ↦ a ]

-- `_, ok := keysRemove[k]`
unfoldable pub is_removed : String → Bool
unfolding has_key
is_removed k = has_key k keys_remove

-- `_, ok := keysStatic[k]`
unfoldable pub is_static : String → Bool
unfolding has_key
is_static k = has_key k keys_static
