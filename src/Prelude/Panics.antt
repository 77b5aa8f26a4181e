-- ===== src/Prelude/Panics.antt =====
-- A Go computation that may panic: `panic` stands for a run-time error such as an index out of
-- range or a nil dereference.
use mathlib.Core.Path.{◌≡◌, refl}
use mathlib.Core.Logic.{◌⊎◌, inl, inr}
use mathlib.Core.Option.{some}

pub data Outcome {ℓ} (A : Type ℓ) : Type ℓ where
  ok : A → Outcome A
  panic : Outcome A

infixl 5 ◌>>=◌
-- After a panic nothing runs.
abbrev pub ◌>>=◌ {κ ℓ} : {B : Type κ} {A : Type ℓ} → Outcome B → (B → Outcome A) → Outcome A
panic >>= next = panic
ok b >>= next = next b

-- A computation that ends has its first part end.
pub >>=-eq-ok {κ ℓ} :
    {B : Type κ} {A : Type ℓ} (run : Outcome B) (next : B → Outcome A) {a : A}
    → (run >>= next) ≡ ok a
    → (b : B) × (run ≡ ok b) × (next b ≡ ok a)
>>=-eq-ok panic next e = cc
>>=-eq-ok (ok b) next e = (b, refl, e)

pub ok-injective {ℓ} : {A : Type ℓ} {a b : A} → ok a ≡ ok b → a ≡ b
ok-injective e = cc

pub some-injective {ℓ} : {A : Type ℓ} {a b : A} → some a ≡ some b → a ≡ b
some-injective e = cc

pub Outcome-cases {ℓ} : {A : Type ℓ} (c : Outcome A) → (c ≡ panic) ⊎ ((x : A) × (c ≡ ok x))
Outcome-cases panic = inl refl
Outcome-cases (ok x) = inr (x, refl)
