-- ===== src/State/Replace/Lookup.antt =====
-- What a key of the renamed message holds.
use go_gwiot.Prelude.{
  String, ◌≡◌, refl, Option, none, some, str_eq, if◌then◌else◌, Bool-cases, inl, inr, ◌∙◌,
}
use go_gwiot.State.Value.{Value, Fields, end, field, get, put, is_null, get-put}
use go_gwiot.State.Keys.{rename}
use go_gwiot.State.Replace.{replace_value, replace_into, replace_keys}

abbrev pub or_else : Option Value → Option Value → Option Value
or_else none d = d
or_else (some v) d = some v

-- The last entry of `m` that is not nil and whose key is renamed to `j`.
unfoldable pub last_named : String → Fields → Option Value
last_named j end = none
last_named j (field k v m) =
    or_else (last_named j m)
      (if is_null v then none else if str_eq (rename k) j then some (replace_value v) else none)

or_else_assoc : (a b c : Option Value) → or_else a (or_else b c) ≡ or_else (or_else a b) c
or_else_assoc none b c = refl
or_else_assoc (some v) b c = refl

pub or_else-none : (a : Option Value) → or_else a none ≡ a
or_else-none none = refl
or_else-none (some v) = refl

-- One round of the loop, as a later entry or the map before it sees it.
get-step :
    (res : Fields) (k : String) (v : Value) (later : Option Value) (j : String)
    → or_else later (get (if is_null v then res else put res (rename k) (replace_value v)) j)
      ≡ or_else
          (or_else later (
            if is_null v
            then none
            else if str_eq (rename k) j
            then some (replace_value v)
            else none))
          (get res j)
get-step res k v later j = elim (Bool-cases (is_null v)) [
  | inl e ↦ rw e (or_else_assoc later none (get res j))
  | inr e ↦
      rw (e, get-put res (rename k) j (replace_value v))
        (elim (Bool-cases (str_eq (rename k) j)) [
          | inl same ↦ rw same (or_else_assoc later (some (replace_value v)) (get res j))
          | inr other ↦ rw other (or_else_assoc later none (get res j))
        ])
]

pub get-replace_into :
    (res m : Fields) (j : String)
    → get (replace_into res m) j ≡ or_else (last_named j m) (get res j)
unfolding last_named replace_value
get-replace_into res end j = refl
get-replace_into res (field k v m) j =
    get-replace_into (if is_null v then res else put res (rename k) (replace_value v)) m j
    ∙ get-step res k v (last_named j m) j

-- A key `j` of the renamed message holds the renamed value of the last entry, in the order of the
-- iteration, that is not nil and whose key is renamed to `j`, and is missing if there is none.
pub get-replace_keys : (m : Fields) (j : String) → get (replace_keys m) j ≡ last_named j m
unfolding replace_keys get
get-replace_keys m j = get-replace_into end m j ∙ or_else-none (last_named j m)
