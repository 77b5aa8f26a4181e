-- ===== src/Hostname.antt =====
-- `Hostname` of internal/utils/utils.go: the name of the device, from a file of `key=value` lines or
-- from the system. The package variable `hostname` keeps it, and is what the function returns.
pub mod Named
mod Examples
use go_gwiot.Prelude.{
  ℕ, Bool, true, false, ◌&&◌, ◌||◌, Option, none, some, List, [], ◌∷◌, ltb, leb, ◌==◌, filter,
  if◌then◌else◌,
}
use go_gwiot.Prelude.Bytes.{Bytes, ascii, bytes_eq}

-- The lines that the scanner yields, `none` if the file cannot be opened, and `os.Hostname()`, `none`
-- with an error.
pub record World : Type 0 where
  pub file : Option (List Bytes)
  pub os_hostname : Option Bytes

abbrev onto_first : ℕ → List Bytes → List Bytes
onto_first c [] = (c ∷ []) ∷ []
onto_first c (part ∷ parts) = (c ∷ part) ∷ parts

-- `strings.Split(line, "=")`
unfoldable pub split : Bytes → List Bytes
split [] = [] ∷ []
split (c ∷ line) = let parts = split line in if c == b'=' then [] ∷ parts else onto_first c parts

-- The map `envdev`: an entry hides those behind it.
abbrev pub Env : Type 0
Env = List (Bytes × Bytes)

-- `if len(split) > 1 { envdev[split[0]] = split[1] }`
abbrev pub with_parts : List Bytes → Env → Env
with_parts [] env = env
with_parts (key ∷ []) env = env
with_parts (key ∷ value ∷ parts) env = (key, value) ∷ env

unfoldable pub read_lines : List Bytes → Env → Env
unfolding split
read_lines [] env = env
read_lines (line ∷ lines) env = read_lines lines (with_parts (split line) env)

unfoldable pub lookup : Bytes → Env → Option Bytes
lookup k [] = none
lookup k ((j, v) ∷ env) = if bytes_eq j k then some v else lookup k env

-- What the regular expression leaves: letters, digits, '-', '_' and '.'.
unfoldable pub is_allowed : ℕ → Bool
is_allowed c =
    leb b'a' c && leb c b'z'
    || leb b'A' c && leb c b'Z'
    || leb b'0' c && leb c b'9'
    || c == b'-'
    || c == b'_'
    || c == b'.'

abbrev pub environment : World → Env
environment w = elim w.file [ none ↦ [] | some lines ↦ read_lines lines [] ]

abbrev pub non_empty_or : Bytes → Bytes → Bytes
non_empty_or [] other = other
non_empty_or (c ∷ name) other = c ∷ name

-- The name of the system and the value of the file. `none`: without the first the program ends.
abbrev pub chosen : Option Bytes → Option Bytes → Option Bytes
unfolding is_allowed
chosen none found = none
chosen (some name) none = some name
chosen (some name) (some v) = some (non_empty_or (filter is_allowed v) name)

-- The second argument is the package variable, and the result is what it becomes.
unfoldable pub hostname : World → Bytes → Option Bytes
unfolding read_lines lookup is_allowed
hostname w [] = chosen w.os_hostname (lookup (ascii "sn-dev") (environment w))
hostname w (c ∷ kept) = some (c ∷ kept)

-- `SetHostname`
unfoldable pub set_hostname : Bytes → Bytes → Bytes
set_hostname h kept = h
