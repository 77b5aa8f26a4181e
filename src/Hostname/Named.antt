-- ===== src/Hostname/Named.antt =====
-- Which name the device has.
use go_gwiot.Prelude.{
  ℕ, ◌≡◌, ◌≢◌, refl, sym, ap, ◌∙◌, Bool, true, false, Option, none, some, List, [], ◌∷◌, ◌++◌, ◌==◌,
  All, filter, ◌⊎◌, inl, inr, Bool-cases, arith, some-injective,
}
use mathlib.Core.Path.{ap₂, subst}
use go_gwiot.Prelude.Bytes.{Bytes, ascii, bytes_eq}
use go_gwiot.RemoteMqtt
use go_gwiot.RemoteMqtt.{topic_of}
use go_gwiot.Hostname.{
  World, split, Env, with_parts, read_lines, lookup, is_allowed, environment, non_empty_or, chosen,
  hostname,
}

abbrev pub IsNoSign : ℕ → Type 0
IsNoSign c = (c == b'=') ≡ false

-- The line has no "=", or what stands before the first one is another key.
abbrev pub IsOther : Bytes → Type 0
IsOther line = lookup (ascii "sn-dev") (with_parts (split line) []) ≡ none

-- The end of a line, or a further "=".
abbrev pub EndsValue : Bytes → Type 0
EndsValue [] = Unit
EndsValue (c ∷ rest) = (c == b'=') ≡ true

split-value :
    (v rest : Bytes)
    → All IsNoSign v
    → EndsValue rest
    → (parts : List Bytes) × (split (v ++ rest) ≡ v ∷ parts)
unfolding split
split-value [] [] a e = ([], refl)
split-value [] (c ∷ rest) a e = (split rest, rw e)
split-value (c ∷ v) rest a e = let (parts, eq) = split-value v rest a.1 e in (parts, rw (a.0, eq))

read_lines-append :
    (xs ys : List Bytes) (env : Env) → read_lines (xs ++ ys) env ≡ read_lines ys (read_lines xs env)
unfolding read_lines
read_lines-append [] ys env = refl
read_lines-append (x ∷ xs) ys env = read_lines-append xs ys (with_parts (split x) env)

lookup-with_other :
    (parts : List Bytes) (env : Env) (k v : Bytes)
    → lookup k (with_parts parts []) ≡ none
    → lookup k env ≡ some v
    → lookup k (with_parts parts env) ≡ some v
unfolding lookup
lookup-with_other [] env k v o h = h
lookup-with_other (key ∷ []) env k v o h = h
lookup-with_other (key ∷ value ∷ parts) env k v o h = ground arith

read_lines-others :
    (lines : List Bytes) (env : Env) (v : Bytes)
    → All IsOther lines
    → lookup (ascii "sn-dev") env ≡ some v
    → lookup (ascii "sn-dev") (read_lines lines env) ≡ some v
unfolding read_lines
read_lines-others [] env v o h = h
read_lines-others (line ∷ lines) env v o h =
    read_lines-others lines (with_parts (split line) env) v o.1
      (lookup-with_other (split line) env (ascii "sn-dev") v o.0 h)

abbrev pub sn_dev_line : Bytes → Bytes → Bytes
sn_dev_line v rest = ascii "sn-dev=" ++ v ++ rest

lookup-sn_dev :
    (v rest : Bytes) (env : Env)
    → All IsNoSign v
    → EndsValue rest
    → lookup (ascii "sn-dev") (with_parts (split (sn_dev_line v rest)) env) ≡ some v
unfolding split lookup bytes_eq
lookup-sn_dev v rest env a e = let (parts, eq) = split-value v rest a e in rw eq

environment-sn_dev :
    (w : World) (before after : List Bytes) (v rest : Bytes)
    → w.file ≡ some (before ++ sn_dev_line v rest ∷ after)
    → All IsNoSign v
    → EndsValue rest
    → All IsOther after
    → lookup (ascii "sn-dev") (environment w) ≡ some v
unfolding read_lines
environment-sn_dev w before after v rest f a e o =
    rw (f, read_lines-append before (sn_dev_line v rest ∷ after) [])
      (read_lines-others after (with_parts (split (sn_dev_line v rest)) (read_lines before [])) v o
        (lookup-sn_dev v rest (read_lines before []) a e))

-- A device whose name is not yet known, with a file whose last line for the key "sn-dev" gives the
-- value `v` (up to a further "="), is named by the letters, digits, '-', '_' and '.' of `v`; if there
-- are none of these, by the system.
pub hostname-named :
    (w : World) (before after : List Bytes) (v rest name : Bytes)
    → w.file ≡ some (before ++ sn_dev_line v rest ∷ after)
    → w.os_hostname ≡ some name
    → All IsNoSign v
    → EndsValue rest
    → All IsOther after
    → hostname w [] ≡ some (non_empty_or (filter is_allowed v) name)
unfolding hostname is_allowed
hostname-named w before after v rest name f n a e o =
    ap₂ chosen n (environment-sn_dev w before after v rest f a e o)

abbrev pub IsAllowed : ℕ → Type 0
IsAllowed c = is_allowed c ≡ true

filter-All : (p : ℕ → Bool) (xs : Bytes) → All (λ c. p c ≡ true) (filter p xs)
filter-All p [] = tt
filter-All p (x ∷ xs) = elim (Bool-cases (p x)) [
  | inl e ↦ rw e (e, filter-All p xs)
  | inr e ↦ rw e (filter-All p xs)
]

chosen-IsAllowed :
    (name n : Bytes) (found : Option Bytes)
    → chosen (some name) found ≡ some n
    → (n ≡ name) ⊎ All IsAllowed n
unfolding is_allowed
chosen-IsAllowed name n none h = inl (some-injective (sym h))
chosen-IsAllowed name n (some v) h =
    kept (filter is_allowed v) (filter-All is_allowed v) (some-injective h)
  where
    kept : (s : Bytes) → All IsAllowed s → non_empty_or s name ≡ n → (n ≡ name) ⊎ All IsAllowed n
    kept [] a e = inl (sym e)
    kept (c ∷ s) a e = inr (subst (All IsAllowed) e a)

-- No wildcard of MQTT, "+" or "#".
abbrev pub IsPlain : ℕ → Type 0
IsPlain c = (c ≢ b'+') × (c ≢ b'#')

IsAllowed-IsPlain : (c : ℕ) → is_allowed c ≡ true → IsPlain c
unfolding is_allowed
IsAllowed-IsPlain c h = (ground arith, ground arith)

All-IsPlain : (s : Bytes) → All IsAllowed s → All IsPlain s
All-IsPlain [] a = tt
All-IsPlain (c ∷ s) a = (IsAllowed-IsPlain c a.0, All-IsPlain s a.1)

All-append : (xs ys : Bytes) → All IsPlain xs → All IsPlain ys → All IsPlain (xs ++ ys)
All-append [] ys a b = b
All-append (x ∷ xs) ys a b = (a.0, All-append xs ys a.1 b)

topic_of-IsPlain :
    (w : RemoteMqtt.World) (test : Bool) → All IsPlain w.hostname → All IsPlain (topic_of w test)
topic_of-IsPlain w true a = All-append (ascii "TEST/") w.hostname (omega arith) a
topic_of-IsPlain w false a =
    All-append (ascii "/devices/") (w.hostname ++ ascii "/events") (omega arith)
      (All-append w.hostname (ascii "/events") a (omega arith))

-- A device that is not named by the system, and whose name was not set before, publishes under a topic
-- with no wildcard, whatever the file of its name holds.
pub hostname-topic :
    (w : World) (name n : Bytes) (r : RemoteMqtt.World) (test : Bool)
    → w.os_hostname ≡ some name
    → hostname w [] ≡ some n
    → n ≢ name
    → r.hostname ≡ n
    → All IsPlain (topic_of r test)
unfolding hostname is_allowed
hostname-topic w name n r test o h ne e =
    let found = lookup (ascii "sn-dev") (environment w) in
    elim (chosen-IsAllowed name n found (ap (λ s. chosen s found) (sym o) ∙ h)) [
      | inl same ↦ absurd (ne same)
      | inr a ↦ topic_of-IsPlain r test (subst (All IsPlain) (sym e) (All-IsPlain n a))
    ]
