-- ===== src/State/Slice.antt =====
-- `compareSlice` of internal/state/status.go.
use go_gwiot.Prelude.{
  ◌≡◌, refl, sym, Bool, true, false, ◌↔◌, List, [], ◌∷◌, ◌++◌, Outcome, ok, panic, if◌then◌else◌,
  String, str_eq, Bool-cases, inl, inr,
}
use mathlib.Core.Path.{ap₂}
use go_gwiot.Prelude.Bytes.{Bytes, bytes_eq}
use go_gwiot.State.Value.{ℤ, int_eq, Float64, float64_eq}

-- Go's `==` on a type that `constraints.Ordered` admits. On float64 it is no equality: NaN.
pub record Ordered {ℓ} (T : Type ℓ) : Type ℓ where
  pub eq : T → T → Bool

instance abbrev pub string_ordered : Ordered String
string_ordered = record { eq = str_eq }

instance abbrev pub ℤ_ordered : Ordered ℤ
ℤ_ordered = record { eq = int_eq }

instance abbrev pub float64_ordered : Ordered Float64
float64_ordered = record { eq = float64_eq }

-- The bytes of a Go string, compared as the string is.
instance abbrev pub bytes_ordered : Ordered Bytes
bytes_ordered = record { eq = bytes_eq }

-- The loop runs over `t2` and reads `t1[i]`, which panics past the end of `t1`.
module _ {ℓ} {T : Type ℓ} ⦃o : Ordered T⦄ where
  unfoldable pub compare_slice : List T → List T → Outcome Bool
  compare_slice t1 [] = ok true
  compare_slice [] (v ∷ t2) = panic
  compare_slice (x ∷ t1) (v ∷ t2) = if o.eq x v then compare_slice t1 t2 else ok false

-- What the loop decides, where `==` is equality.
module _ {ℓ} {T : Type ℓ} ⦃o : Ordered T⦄ (eq_iff : (a b : T) → (o.eq a b ≡ true) ↔ (a ≡ b)) where
  compare_slice-true :
      (t1 t2 : List T) → compare_slice t1 t2 ≡ ok true → (r : List T) × (t1 ≡ t2 ++ r)
  unfolding compare_slice
  compare_slice-true t1 [] h = (t1, refl)
  compare_slice-true [] (v ∷ t2) h = absurd cc
  compare_slice-true (x ∷ t1) (v ∷ t2) h = elim (Bool-cases (o.eq x v)) [
    | inl e ↦ let (r, p) = compare_slice-true t1 t2 (rw e at h) in (r, ap₂ ◌∷◌ ((eq_iff x v).0 e) p)
    | inr e ↦ absurd (let h' : ok false ≡ ok true = rw e at h in cc)
  ]

  compare_slice-append : (t2 r : List T) → compare_slice (t2 ++ r) t2 ≡ ok true
  unfolding compare_slice
  compare_slice-append [] r = refl
  compare_slice-append (v ∷ t2) r = rw ((eq_iff v v).1 refl) (compare_slice-append t2 r)

  compare_slice-panic :
      (t1 t2 : List T) → compare_slice t1 t2 ≡ panic → (v : T) × (r : List T) × (t2 ≡ t1 ++ v ∷ r)
  unfolding compare_slice
  compare_slice-panic t1 [] h = absurd cc
  compare_slice-panic [] (v ∷ t2) h = (v, t2, refl)
  compare_slice-panic (x ∷ t1) (v ∷ t2) h = elim (Bool-cases (o.eq x v)) [
    | inl e ↦
        let (w, r, p) = compare_slice-panic t1 t2 (rw e at h) in
        (w, r, ap₂ ◌∷◌ (sym ((eq_iff x v).0 e)) p)
    | inr e ↦ absurd (let h' : ok false ≡ panic = rw e at h in cc)
  ]

  compare_slice_shorter : (t1 r : List T) (v : T) → compare_slice t1 (t1 ++ v ∷ r) ≡ panic
  unfolding compare_slice
  compare_slice_shorter [] r v = refl
  compare_slice_shorter (x ∷ t1) r v = rw ((eq_iff x x).1 refl) (compare_slice_shorter t1 r v)

  -- Where `==` is equality, `compareSlice new last` is true exactly when `last` is a prefix of `new`,
  -- so a list that has only grown counts as unchanged, and it panics exactly when `new` is a strict
  -- prefix of `last`, a list that has only shrunk; in every other case it is false.
  pub compare_slice_iff :
      (new last : List T)
      → ((compare_slice new last ≡ ok true) ↔ ((r : List T) × (new ≡ last ++ r)))
        × ((compare_slice new last ≡ panic) ↔ ((v : T) × (r : List T) × (last ≡ new ++ v ∷ r)))
  compare_slice_iff new last = (
    (compare_slice-true new last, λ (r, e). rw e (compare_slice-append last r)),
    (compare_slice-panic new last, λ (v, r, e). rw e (compare_slice_shorter new r v)),
  )
