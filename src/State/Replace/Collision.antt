-- ===== src/State/Replace/Collision.antt =====
-- Two fields of a message that `ReplaceKeys` of internal/state/status.go renames to one key.
use go_gwiot.Prelude.{
  String, ◌≡◌, refl, sym, ap, ◌∙◌, false, none, some, arith, str_eq, eq_iff, eq_refl, if◌then◌else◌,
  Bool-cases, inl, inr,
}
use go_gwiot.State.Value.{Value, Fields, end, field, get, is_null, IsMap}
use go_gwiot.State.Keys.{rename}
use go_gwiot.State.Replace.{replace_value, replace_keys}
use go_gwiot.State.Replace.Lookup.{or_else, or_else-none, last_named, get-replace_keys}
use go_gwiot.State.Replace.Order.{SameMap}

-- The map in another order: the entry of the key goes to the end.
abbrev without : String → Fields → Fields
without k end = end
without k (field j v m) = let rest = without k m in if str_eq j k then m else field j v rest

abbrev at_end : String → Value → Fields → Fields
at_end k v end = field k v end
at_end k v (field j w m) = field j w (at_end k v m)

get-without :
    (k j : String) (m : Fields)
    → IsMap m
    → get (without k m) j ≡ (if str_eq k j then none else get m j)
unfolding get
get-without k j end u = ground arith
get-without k j (field i v m) u = elim (Bool-cases (str_eq i k)) [
  | inl e ↦
      let p : i ≡ k = (eq_iff i k).0 e in
      let gone : get m k ≡ none = ap (get m) (sym p) ∙ u.0 in
      elim (Bool-cases (str_eq k j)) [
        | inl f ↦ rw (e, f) (ap (get m) (sym ((eq_iff k j).0 f)) ∙ gone)
        | inr f ↦ rw (e, f, p) (rw f refl)
      ]
  | inr e ↦ elim (Bool-cases (str_eq i j)) [
    | inl f ↦
        let apart : str_eq k j ≡ false = ground (arith, eq_iff i j, eq_iff k j, eq_iff i k) in
        rw (e, f, apart) refl
    | inr f ↦ rw (e, f) (get-without k j m u.1)
  ]
]

get-at_end :
    (k j : String) (v : Value) (m : Fields)
    → get (at_end k v m) j ≡ or_else (get m j) (if str_eq k j then some v else none)
unfolding get
get-at_end k j v end = refl
get-at_end k j v (field i w m) = elim (Bool-cases (str_eq i j)) [
  | inl e ↦ rw e refl
  | inr e ↦ rw e (get-at_end k j v m)
]

without-IsMap : (k : String) (m : Fields) → IsMap m → IsMap (without k m)
without-IsMap k end u = tt
without-IsMap k (field i v m) u = elim (Bool-cases (str_eq i k)) [
  | inl e ↦ rw e u.1
  | inr e ↦ rw e (get-without k i m u.1 ∙ ground (arith, u.0), without-IsMap k m u.1)
]

at_end-IsMap :
    (k : String) (v : Value) (m : Fields) → IsMap m → get m k ≡ none → IsMap (at_end k v m)
unfolding get
at_end-IsMap k v end u n = (refl, tt)
at_end-IsMap k v (field i w m) u n = elim (Bool-cases (str_eq i k)) [
  | inl e ↦ absurd (let no : some w ≡ none = rw e at n in cc)
  | inr e ↦ (
    get-at_end k i v m ∙ ground (arith, u.0, eq_iff i k, eq_iff k i),
    at_end-IsMap k v m u.1 (rw e at n),
  )
]

moved-SameMap :
    (k : String) (v : Value) (m : Fields)
    → IsMap m
    → get m k ≡ some v
    → SameMap m (at_end k v (without k m))
moved-SameMap k v m u h j = elim (Bool-cases (str_eq k j)) [
  | inl e ↦
      let p : get m j ≡ some v = ap (get m) (sym ((eq_iff k j).0 e)) ∙ h in
      p ∙ sym (get-at_end k j v (without k m) ∙ rw (get-without k j m u, e) refl)
  | inr e ↦
      sym (get-at_end k j v (without k m) ∙ rw (get-without k j m u, e) (or_else-none (get m j)))
]

moved-IsMap : (k : String) (v : Value) (m : Fields) → IsMap m → IsMap (at_end k v (without k m))
moved-IsMap k v m u =
    at_end-IsMap k v (without k m) (without-IsMap k m u) (get-without k k m u ∙ rw (eq_refl k) refl)

last_named-at_end :
    (k : String) (v : Value) (m : Fields)
    → is_null v ≡ false
    → last_named (rename k) (at_end k v m) ≡ some (replace_value v)
unfolding last_named
last_named-at_end k v end n = rw (n, eq_refl (rename k)) refl
last_named-at_end k v (field i w m) n = rw (last_named-at_end k v m n) refl

-- A message of any fields, two of which are kept and renamed to one key: there is an order of its entries
-- in which the renamed message holds the value of the one at that key, and an order in which it holds
-- that of the other. So, where the two values differ after renaming, the message that is sent depends
-- on the order in which Go happens to iterate.
pub replace_keys_collision :
    (m : Fields) (k k' : String) (v v' : Value)
    → IsMap m
    → get m k ≡ some v
    → get m k' ≡ some v'
    → is_null v ≡ false
    → is_null v' ≡ false
    → rename k ≡ rename k'
    → (one : Fields) × (other : Fields) × IsMap one
      × IsMap other
      × SameMap m one
      × SameMap m other
      × (get (replace_keys one) (rename k) ≡ some (replace_value v))
      × (get (replace_keys other) (rename k) ≡ some (replace_value v'))
replace_keys_collision m k k' v v' u h h' n n' r =
    let one = at_end k v (without k m) in
    let other = at_end k' v' (without k' m) in
    (
      one,
      other,
      moved-IsMap k v m u,
      moved-IsMap k' v' m u,
      moved-SameMap k v m u h,
      moved-SameMap k' v' m u h',
      get-replace_keys one (rename k) ∙ last_named-at_end k v (without k m) n,
      get-replace_keys other (rename k)
          ∙ ap (λ j. last_named j other) r
          ∙ last_named-at_end k' v' (without k' m) n',
    )
