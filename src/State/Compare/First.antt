-- ===== src/State/Compare/First.antt =====
-- `funcCompare` of internal/state/status.go, the first version of the comparison, which nothing calls.
-- It runs over the new message, where `funcCompare_v2` runs over the last one.
use go_gwiot.Prelude.{
  String, ◌≡◌, refl, sym, ap, ◌∙◌, Bool, true, false, Option, none, some, List, Outcome, ok, panic,
  ◌>>=◌, >>=-eq-ok, ok-injective, some-injective, if◌then◌else◌, Bool-cases, inl, inr, str_eq,
  eq_iff, eq_refl,
}
use go_gwiot.Prelude.Bytes.{Bytes}
use go_gwiot.State.Value.{
  ℤ, Float64, Value, string_slice, bytes_slice, int_slice, int64_slice, float64_slice, object,
  Fields, end, field, get, put, is_empty, get-put, IsMap,
}
use go_gwiot.State.Keys.{is_removed, is_static}
use go_gwiot.State.Slice.{Ordered, compare_slice, string_ordered, ℤ_ordered}

-- `if !equal { res[k] = v }`
abbrev unequal : Value → Outcome Bool → Outcome (Option Value)
unequal v same = do b ← same; ok (if b then none else some v)

-- `math.Abs(x-y) < 0.001` and `bytes.EqualFold(x, y)` are parameters.
module _ (is_near : Float64 → Float64 → Bool) (equal_fold : Bytes → Bytes → Bool) where
  abbrev near_ordered : Ordered Float64
  near_ordered = record { eq = is_near }

  abbrev fold_ordered : Ordered Bytes
  fold_ordered = record { eq = equal_fold }

  -- The slices: a value of another type reports nothing.
  changed_strings : Value → List String → Outcome (Option Value)
  changed_strings (string_slice new) last = unequal (string_slice new) (compare_slice new last)
  changed_strings v last = ok none

  changed_bytes : Value → List Bytes → Outcome (Option Value)
  changed_bytes (bytes_slice new) last =
      unequal (bytes_slice new) (compare_slice ⦃o = fold_ordered⦄ new last)
  changed_bytes v last = ok none

  changed_ints : Value → List ℤ → Outcome (Option Value)
  changed_ints (int_slice new) last = unequal (int_slice new) (compare_slice new last)
  changed_ints v last = ok none

  changed_int64s : Value → List ℤ → Outcome (Option Value)
  changed_int64s (int64_slice new) last = unequal (int64_slice new) (compare_slice new last)
  changed_int64s v last = ok none

  changed_float64s : Value → List Float64 → Outcome (Option Value)
  changed_float64s (float64_slice new) last =
      unequal (float64_slice new) (compare_slice ⦃o = near_ordered⦄ new last)
  changed_float64s v last = ok none

  abbrev pub put_some : Fields → String → Option Value → Fields
  put_some res k none = res
  put_some res k (some v) = put res k v

  -- One round: what `res` becomes, given what the value reports against the last one.
  abbrev pub compare_key :
      Fields → String → Value → Option Value → (Value → Outcome (Option Value)) → Outcome Fields
  compare_key res k v last report =
      if is_removed k then ok res else if is_static k then ok (put res k v) else elim last [
        | none ↦ ok (put res k v)
        | some vlast ↦ do o ← report vlast; ok (put_some res k o)
      ]

  unfoldable mutual
    unfolding changed_strings changed_bytes changed_ints changed_int64s changed_float64s

    -- `switch ri := vlast.(type)`; a map of the last message asserts that the new value is one.
    pub changed : Value → Value → Outcome (Option Value)
    changed (object m) (object ri) = do
      result ← compare_into end m ri
      ok (if is_empty result then none else some (object result))
    changed v (object ri) = panic
    changed v (string_slice ri) = changed_strings v ri
    changed v (bytes_slice ri) = changed_bytes v ri
    changed v (int_slice ri) = changed_ints v ri
    changed v (int64_slice ri) = changed_int64s v ri
    changed v (float64_slice ri) = changed_float64s v ri
    changed v _ = ok (some v)

    pub compare_into : Fields → Fields → Fields → Outcome Fields
    compare_into res end last = ok res
    compare_into res (field k v m) last = do
      res' ← compare_key res k v (get last k) (changed v)
      compare_into res' m last

  unfoldable pub func_compare : Fields → Fields → Outcome Fields
  unfolding compare_into
  func_compare new last = compare_into end new last

  put-other :
      (res : Fields) (k j : String) (v : Value)
      → str_eq k j ≡ false
      → get (put res k v) j ≡ get res j
  put-other res k j v ne = get-put res k j v ∙ ap (λ b. if b then some v else get res j) ne

  put_some-other :
      (res : Fields) (k j : String) (o : Option Value)
      → str_eq k j ≡ false
      → get (put_some res k o) j ≡ get res j
  put_some-other res k j none ne = refl
  put_some-other res k j (some v) ne = put-other res k j v ne

  -- A round for the key `k` leaves what the result holds at another key.
  compare_key-other :
      (res res' : Fields) (k j : String) (v : Value) (last : Option Value)
      (report : Value → Outcome (Option Value))
      → str_eq k j ≡ false
      → compare_key res k v last report ≡ ok res'
      → get res' j ≡ get res j
  compare_key-other res res' k j v last report ne h = gated (is_removed k) (is_static k) last h
    where
      gated :
          (r s : Bool) (last' : Option Value)
          → (if◌then◌else◌ {A = Outcome Fields} r (ok res) (
              if◌then◌else◌ {A = Outcome Fields} s (ok (put res k v)) (elim last' [
                | none ↦ ok (put res k v)
                | some vlast ↦ do o ← report vlast; ok (put_some res k o)
              ])))
            ≡ ok res'
          → get res' j ≡ get res j
      gated true s l e = ap (λ m. get m j) (sym (ok-injective e))
      gated false true l e = ap (λ m. get m j) (sym (ok-injective e)) ∙ put-other res k j v ne
      gated false false none e = ap (λ m. get m j) (sym (ok-injective e)) ∙ put-other res k j v ne
      gated false false (some vlast) e =
          let (o, run, e') = >>=-eq-ok (report vlast) _ e in
          ap (λ m. get m j) (sym (ok-injective e')) ∙ put_some-other res k j o ne

  -- The rest of the loop leaves a key that is not in the rest of the message.
  compare_into-other :
      (m res r last : Fields) (j : String)
      → get m j ≡ none
      → compare_into res m last ≡ ok r
      → get r j ≡ get res j
  unfolding compare_into get
  compare_into-other end res r last j n h = ap (λ m. get m j) (sym (ok-injective h))
  compare_into-other (field k v m) res r last j n h = elim (Bool-cases (str_eq k j)) [
    | inl e ↦ absurd (let no : some v ≡ none = rw e at n in cc)
    | inr e ↦
        let (res', first, h') = >>=-eq-ok (compare_key res k v (get last k) (changed v)) _ h in
        compare_into-other m res' r last j (rw e at n) h'
        ∙ compare_key-other res res' k j v (get last k) (changed v) e first
  ]

  compare_key-new :
      (res res' : Fields) (k : String) (v : Value) (report : Value → Outcome (Option Value))
      → is_removed k ≡ false
      → compare_key res k v none report ≡ ok res'
      → get res' k ≡ some v
  compare_key-new res res' k v report n h = gated (is_removed k) (is_static k) n h
    where
      written : get (put res k v) k ≡ some v
      written = get-put res k k v ∙ ap (λ b. if b then some v else get res k) (eq_refl k)

      gated :
          (r s : Bool)
          → r ≡ false
          → (if◌then◌else◌ {A = Outcome Fields} r
              (ok res)
              (if◌then◌else◌ {A = Outcome Fields} s (ok (put res k v)) (ok (put res k v))))
            ≡ ok res'
          → get res' k ≡ some v
      gated true s q e = absurd cc
      gated false true q e = ap (λ m. get m k) (sym (ok-injective e)) ∙ written
      gated false false q e = ap (λ m. get m k) (sym (ok-injective e)) ∙ written

  compare_into-new :
      (m res r last : Fields) (k : String) (v : Value)
      → IsMap m
      → get m k ≡ some v
      → get last k ≡ none
      → is_removed k ≡ false
      → compare_into res m last ≡ ok r
      → get r k ≡ some v
  unfolding compare_into get
  compare_into-new end res r last k v u g n d h = absurd cc
  compare_into-new (field j w m) res r last k v u g n d h =
      let (res', first, h') = >>=-eq-ok (compare_key res j w (get last j) (changed w)) _ h in
      elim (Bool-cases (str_eq j k)) [
        | inl e ↦
            let j≡k = (eq_iff j k).0 e in
            let same : some w ≡ some v = rw e at g in
            let first' : compare_key res k v none (changed v) ≡ ok res' =
              (λ i.
                compare_key res (sym j≡k i) (sym (some-injective same) i)
                  (sym (ap (get last) j≡k ∙ n) i) (changed (sym (some-injective same) i)))
              ∙ first in
            compare_into-other m res' r last k (ap (get m) (sym j≡k) ∙ u.0) h'
            ∙ compare_key-new res res' k v (changed v) d first'
        | inr e ↦ compare_into-new m res' r last k v u.1 (rw e at g) n d h'
      ]

  -- A field of the new message that the last one has not, under a key that is not one of `keysRemove`, is in
  -- what this version reports, with its value.
  pub func_compare-new :
      (m last r : Fields) (k : String) (v : Value)
      → IsMap m
      → get m k ≡ some v
      → get last k ≡ none
      → is_removed k ≡ false
      → func_compare m last ≡ ok r
      → get r k ≡ some v
  unfolding func_compare
  func_compare-new m last r k v u g n d h = compare_into-new m end r last k v u g n d h
