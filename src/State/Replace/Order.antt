-- ===== src/State/Replace/Order.antt =====
-- Where the fields of a renamed message come from, whatever the order of the iteration.
use go_gwiot.Prelude.{
  String, ◌≡◌, ◌≢◌, refl, ap, ◌∙◌, false, Option, none, some, arith, str_eq, eq_iff, if◌then◌else◌,
  Bool-cases, Option-cases, inl, inr, eq_refl,
}
use go_gwiot.State.Value.{Value, Fields, end, field, get, is_null, IsMap, get-field_rest}
use go_gwiot.State.Keys.{rename}
use go_gwiot.State.Replace.{replace_value}
use go_gwiot.State.Replace.Lookup.{or_else, last_named}

-- Two iterations of one map.
abbrev pub SameMap : Fields → Fields → Type 0
SameMap m m' = (k : String) → get m k ≡ get m' k

-- No two fields that are kept are renamed to one key.
abbrev pub IsCollisionFree : Fields → Type 0
IsCollisionFree m =
    (k k' : String) (v v' : Value)
    → get m k ≡ some v
    → get m k' ≡ some v'
    → is_null v ≡ false
    → is_null v' ≡ false
    → rename k ≡ rename k'
    → k ≡ k'

-- A field of `m` that gives `w` at the renamed key `j`.
pub record Source (m : Fields) (j : String) (w : Value) : Type 0 where
  pub key : String
  pub value : Value
  pub held : get m key ≡ some value
  pub kept : is_null value ≡ false
  pub renamed : rename key ≡ j
  pub result : replace_value value ≡ w

-- The first entry's part in `last_named`.
abbrev own : String → String → Value → Option Value
own j k v = if is_null v then none else if str_eq (rename k) j then some (replace_value v) else none

own-Source :
    (m : Fields) (j k : String) (v w : Value) → own j k v ≡ some w → Source (field k v m) j w
unfolding get
own-Source m j k v w h = elim (Bool-cases (is_null v)) [
  | inl e ↦ absurd (let h' : none ≡ some w = rw e at h in cc)
  | inr e ↦ own-Source_kept e (rw e at h)
]
  where
    own-Source_kept :
        is_null v ≡ false
        → (if str_eq (rename k) j then some (replace_value v) else none) ≡ some w
        → Source (field k v m) j w
    own-Source_kept e h' = record {
      key = k;
      value = v;
      held = rw eq_refl;
      kept = e;
      renamed = (eq_iff (rename k) j).0 (ground arith);
      result = ground arith;
    }

Source-rest :
    (m : Fields) (k j : String) (v w : Value)
    → get m k ≡ none
    → Source m j w
    → Source (field k v m) j w
Source-rest m k j v w u s = record {
  key = s.key;
  value = s.value;
  held = get-field_rest m k s.key v s.value u s.held;
  kept = s.kept;
  renamed = s.renamed;
  result = s.result;
}

pub last_named-Source :
    (m : Fields) (j : String) (w : Value) → IsMap m → last_named j m ≡ some w → Source m j w
unfolding last_named
last_named-Source end j w u h = absurd cc
last_named-Source (field k v m) j w u h = elim (Option-cases (last_named j m)) [
  | inl e ↦ own-Source m j k v w (rw e at h)
  | inr (w', e) ↦ Source-rest m k j v w u.0 (last_named-Source m j w u.1 (e ∙ (rw e at h)))
]

own-ne-none : (i k : String) (w : Value) → i ≡ k → is_null w ≡ false → own (rename k) i w ≡ none → ⊥
own-ne-none i k w e n h = ground (arith, eq_refl (rename k), e, n, ap rename e)

or_else-ne-none : (a b : Option Value) → or_else a b ≡ none → (a ≡ none) × (b ≡ none)
or_else-ne-none none b h = (refl, h)
or_else-ne-none (some v) b h = cc

-- A kept field shows at its renamed key.
pub last_named-held :
    (m : Fields) (k : String) (v : Value)
    → get m k ≡ some v
    → is_null v ≡ false
    → last_named (rename k) m ≢ none
unfolding last_named get
last_named-held end k v h n e = cc
last_named-held (field i w m) k v h n e =
    let parts = or_else-ne-none (last_named (rename k) m) (own (rename k) i w) e in
    elim (Bool-cases (str_eq i k)) [
      | inl same ↦
          let i≡k = (eq_iff i k).0 same in
          let w≡v : w ≡ v = ground arith in own-ne-none i k w i≡k (ap is_null w≡v ∙ n) parts.1
      | inr other ↦ last_named-held m k v (rw other at h) n parts.0
    ]
