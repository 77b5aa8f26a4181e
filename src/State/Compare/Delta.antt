-- ===== src/State/Compare/Delta.antt =====
-- What a receiver that merges the reports knows, and what the comparison of values can return.
use go_gwiot.Prelude.{
  String, ◌≡◌, refl, sym, ap, ◌∙◌, Bool, true, false, Option, none, some, [], ◌∷◌, arith, ok,
  ok-injective, eq_iff, Bool-cases, inl, inr, ◌⊎◌,
}
use go_gwiot.Prelude.Bytes.{Bytes, contains, has_prefix}
use go_gwiot.State.Value.{
  ℤ, Value, null, int, int64, string, byte_slice, object, Fields, get, get_nil-some, is_null, IsMap,
  int_eq,
}
use go_gwiot.State.Keys.{is_removed, is_static}
use go_gwiot.State.Compare.{compare_value, scalar_change, scalar_eq, func_compare_v2, only_changes}
use go_gwiot.State.Compare.Reports.{entry, entries, only_changes_fields}

abbrev pub is_object : Value → Bool
is_object (object m) = true
is_object _ = false

-- Integers and texts, on which Go's `==` is equality.
abbrev pub is_exact : Value → Bool
is_exact (int n) = true
is_exact (int64 n) = true
is_exact (string s) = true
is_exact _ = false

-- The comparison with a value that is no map reports nothing, or the new value as it is.
pub compare_value_source :
    (d last r : Value) → is_object last ≡ false → compare_value d last ≡ ok r → (r ≡ null) ⊎ (r ≡ d)
unfolding compare_value
compare_value_source d null r o h = ground arith
compare_value_source d (object m) r o h = absurd cc
compare_value_source d _ r o h = ground arith

int_eq→≡ : (a b : ℤ) → int_eq a b ≡ true → a ≡ b
unfolding int_eq
int_eq→≡ a b h = ground arith

-- What a receiver holds at a key after it has merged a report.
abbrev pub merged : Option Value → Value → Value
merged none old = old
merged (some new) old = new

scalar_eq→≡ : (v d : Value) → is_exact v ≡ true → scalar_eq v d ≡ true → v ≡ d
unfolding scalar_eq
scalar_eq→≡ (int a) (int b) x h = ap int (int_eq→≡ a b h)
scalar_eq→≡ (int64 a) (int64 b) x h = ap int64 (int_eq→≡ a b h)
scalar_eq→≡ (string a) (string b) x h = ap string ((eq_iff a b).0 h)
scalar_eq→≡ v d x h = absurd (ground arith)

merged-scalar_change :
    (v d : Value) → is_exact v ≡ true → is_null d ≡ false → merged (entry (scalar_change v d)) v ≡ d
unfolding scalar_change
merged-scalar_change v d x nd = elim (Bool-cases (scalar_eq v d)) [
  | inl e ↦ rw e (scalar_eq→≡ v d x e)
  | inr e ↦ rw (e, nd)
]

compare_value-exact : (d v : Value) → is_exact v ≡ true → compare_value d v ≡ ok (scalar_change v d)
unfolding compare_value
compare_value-exact d (int a) x = refl
compare_value-exact d (int64 a) x = refl
compare_value-exact d (string a) x = refl
compare_value-exact d _ x = absurd cc

merged-entry_eq : (d v r : Value) → is_null d ≡ false → d ≡ r → merged (entry r) v ≡ d
merged-entry_eq d v r nd e = rw (← e, nd)

merged-exact :
    (k : String) (d v r : Value)
    → is_removed k ≡ false
    → is_exact v ≡ true
    → is_null d ≡ false
    → func_compare_v2 k d v ≡ ok r
    → merged (entry r) v ≡ d
unfolding func_compare_v2
merged-exact k d v r n x nd h = elim (Bool-cases (is_static k)) [
  | inl s ↦ merged-entry_eq d v r nd (ok-injective (rw (n, s) at h))
  | inr s ↦
      ap (λ w. merged (entry w) v)
        (sym (ok-injective (sym (compare_value-exact d v x) ∙ (rw (n, s) at h))))
      ∙ merged-scalar_change v d x nd
]

-- A receiver that knew the last message's value of a field, an integer or a text, and merges what is
-- sent for the new message, knows the new message's value: for every key of the last message that
-- is not one of `keysRemove` and that the new message holds too, with a value that is not nil.
pub only_changes_merge :
    (s last : Fields) (o : Option Fields) (k : String) (v d : Value)
    → IsMap last
    → only_changes s (some last) ≡ ok o
    → get last k ≡ some v
    → get s k ≡ some d
    → is_removed k ≡ false
    → is_exact v ≡ true
    → is_null d ≡ false
    → merged (get (entries o) k) v ≡ d
only_changes_merge s last o k v d u h l e n x nd =
    let (res, f, g) = (only_changes_fields s last o k u h).1 v l in
    ap (λ r. merged r v) g
    ∙ merged-exact k d v res n x nd
        (ap (λ w. func_compare_v2 k w v) (sym (get_nil-some s k d e)) ∙ f)

has_prefix_self : (b : Bytes) → has_prefix b b ≡ true
unfolding has_prefix
has_prefix_self [] = refl
has_prefix_self (x ∷ b) = ground (arith, has_prefix_self b)

contains_self : (b : Bytes) → contains b b ≡ true
unfolding contains
contains_self [] = has_prefix_self []
contains_self (x ∷ b) = ground (arith, has_prefix_self (x ∷ b))

-- The test on `[]byte` is the wrong way round: an unchanged value is reported again, and a new value
-- that does not contain the last one is not reported at all.
pub compare_value_bytes :
    (b new last : Bytes)
    → contains new last ≡ false
    → (compare_value (byte_slice b) (byte_slice b) ≡ ok (byte_slice b))
      × (compare_value (byte_slice new) (byte_slice last) ≡ ok null)
unfolding compare_value
compare_value_bytes b new last h = (rw (contains_self b), rw h)
