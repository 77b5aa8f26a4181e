-- ===== src/State/Replace/Shape.antt =====
-- The shape of the renamed message.
use go_gwiot.Prelude.{
  String, ◌≡◌, refl, sym, ap, ◌∙◌, Bool, true, false, none, some, arith, str_eq, eq_iff, Bool-cases,
  Option-cases, inl, inr, List, [], ◌∷◌, ◌&&◌,
}
use go_gwiot.State.Value.{
  Value, object, Fields, end, field, put, is_null, is_empty, AllFields, IsMap, put-IsMap,
}
use go_gwiot.State.Keys.{rename, lookup, keys_2_abrev}
use go_gwiot.State.Replace.{replace_value, replace_into, replace_keys}

-- Renaming a renamed key changes nothing: no abbreviation is itself a key with another abbreviation.
abbrev values_stable : List (String × String) → Bool
values_stable [] = true
values_stable ((k, a) ∷ rest) = str_eq (rename a) a && values_stable rest

keys_2_abrev_stable : values_stable keys_2_abrev ≡ true
unfolding rename
keys_2_abrev_stable = refl

stable-lookup :
    (table : List (String × String)) (k a : String)
    → values_stable table ≡ true
    → lookup k table ≡ some a
    → rename a ≡ a
unfolding lookup
stable-lookup [] k a s h = cc
stable-lookup ((j, b) ∷ rest) k a s h = ground (arith, eq_iff (rename b) b, stable-lookup rest k a)

rename-some : (k a : String) → lookup k keys_2_abrev ≡ some a → rename k ≡ a
unfolding rename
rename-some k a e = rw (e, rename)

rename-none : (k : String) → lookup k keys_2_abrev ≡ none → rename k ≡ k
unfolding rename
rename-none k e = rw (e, rename)

pub rename_idem : (k : String) → rename (rename k) ≡ rename k
rename_idem k = elim (Option-cases (lookup k keys_2_abrev)) [
  | inl e ↦ ap rename (rename-none k e)
  | inr (a, e) ↦
      ap rename (rename-some k a e)
      ∙ stable-lookup keys_2_abrev k a keys_2_abrev_stable e
      ∙ sym (rename-some k a e)
]

abbrev pub IsWritten : String → Value → Type 0
IsWritten k v = (is_null v ≡ false) × (rename k ≡ k)

is_null-replace_value : (v : Value) → is_null (replace_value v) ≡ is_null v
unfolding replace_value
is_null-replace_value (object m) = elim (Bool-cases (is_empty (replace_into end m))) [
  | inl e ↦ rw e
  | inr e ↦ rw e
]
is_null-replace_value _ = refl

put-IsWritten :
    (m : Fields) (k : String) (v : Value)
    → AllFields IsWritten m
    → IsWritten k v
    → AllFields IsWritten (put m k v)
unfolding put
put-IsWritten end k v a w = (w, tt)
put-IsWritten (field j u m) k v a w = elim (Bool-cases (str_eq j k)) [
  | inl e ↦ rw e ((w.0, ap rename ((eq_iff j k).0 e) ∙ w.1 ∙ sym ((eq_iff j k).0 e)), a.1)
  | inr e ↦ rw e (a.0, put-IsWritten m k v a.1 w)
]

replace_into-IsWritten :
    (res m : Fields)
    → IsMap res
    → AllFields IsWritten res
    → IsMap (replace_into res m) × AllFields IsWritten (replace_into res m)
unfolding replace_value
replace_into-IsWritten res end u a = (u, a)
replace_into-IsWritten res (field k v m) u a = elim (Bool-cases (is_null v)) [
  | inl e ↦ rw e (replace_into-IsWritten res m u a)
  | inr e ↦ rw e (
      replace_into-IsWritten (put res (rename k) (replace_value v)) m
        (put-IsMap res (rename k) (replace_value v) u)
        (put-IsWritten res (rename k) (replace_value v) a
          (is_null-replace_value v ∙ e, rename_idem k)))
]

-- The renamed message is a map with distinct keys, none of its fields is nil, and each of its keys
-- is its own abbreviation, so that a second renaming would keep every key.
pub replace_keys_shape :
    (m : Fields) → IsMap (replace_keys m) × AllFields IsWritten (replace_keys m)
unfolding replace_keys
replace_keys_shape m = replace_into-IsWritten end m tt tt
