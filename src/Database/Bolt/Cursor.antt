-- ===== src/Database/Bolt/Cursor.antt =====
-- The `for` loop over a cursor, and what it does over the entries that the cursor walks.
use go_gwiot.Prelude.{
  ℕ, zero, suc, ◌<◌, ◌≡◌, refl, Bool, true, false, Option, none, some, List, [], ◌∷◌, arith, length,
}
use mathlib.Core.Path.{subst}
use go_gwiot.Database.Bolt.{Entry, Yields}

-- How a round of the body ends: on to the next one, or a return.
pub data Flow {ℓ} (S : Type ℓ) : Type ℓ where
  go : S → Flow S
  stop : S → Flow S

-- One round: `test` fails, or the body returns or goes on. The exit has the loop variable's entry.
abbrev pub round :
    {S : Type 0}
    → Bool
    → Flow S
    → Entry
    → (S → Option (S × Option Entry))
    → S
    → Option (S × Option Entry)
round true (go s') e rest s = rest s'
round true (stop s') e rest s = some (s', some e)
round false _ e rest s = some (s, some e)

module _ {S : Type 0} (test : Entry → Bool) (body : S → Entry → Flow S) where
  -- The loop over the entries themselves.
  unfoldable pub over : S → List Entry → S × Option Entry
  over s [] = (s, none)
  over s (e ∷ rest) = elim (test e) [
    | true ↦ elim (body s e) [ go s' ↦ over s' rest | stop s' ↦ (s', some e) ]
    | false ↦ (s, some e)
  ]

module _ {S C : Type 0} (move : C → C × Option Entry) (test : Entry → Bool)
    (body : S → Entry → Flow S) where
  -- `for k, v := at; k != nil && test(k); k, v = move() { body }`, with the variables that the body
  -- writes in `S`. `none`: the fuel ran out.
  unfoldable pub for_loop : ℕ → S → C × Option Entry → Option (S × Option Entry)
  for_loop zero s at = none
  for_loop (suc fuel) s (c, none) = some (s, none)
  for_loop (suc fuel) s (c, some e) =
      round (test e) (body s e) e (λ s'. for_loop fuel s' (move c)) s

  round-over :
      (fuel : ℕ) (rest : List Entry) (c : C) (e : Entry) (s : S)
      → ((s' : S) → for_loop fuel s' (move c) ≡ some (over test body s' rest))
      → (t : Bool) (f : Flow S)
      → round t f e (λ s'. for_loop fuel s' (move c)) s
        ≡ some (elim t [
          | true ↦ elim f [ go s' ↦ over test body s' rest | stop s' ↦ (s', some e) ]
          | false ↦ (s, some e)
        ])
  round-over fuel rest c e s remaining true (go s') = remaining s'
  round-over fuel rest c e s remaining true (stop s') = refl
  round-over fuel rest c e s remaining false f = refl

  -- A loop whose cursor walks `l` runs over `l`, given more fuel than `l` has entries.
  pub for_loop-over :
      (left : C → List Entry)
      → ((c : C) → Yields left (left c) (move c))
      → (fuel : ℕ) (s : S) (l : List Entry) (at : C × Option Entry) → Yields left l at
      → length l < fuel
      → for_loop fuel s at ≡ some (over test body s l)
  unfolding for_loop over
  for_loop-over left law zero s l at y h = absurd (omega arith)
  for_loop-over left law (suc fuel) s [] (c, o) y h = rw y
  for_loop-over left law (suc fuel) s (e ∷ rest) (c, o) y h = rw y.0 (
      round-over fuel rest c e s
        (λ s'.
          for_loop-over left law fuel s' rest (move c)
            (subst (λ l. Yields left l (move c)) y.1 (law c)) (omega arith))
        (test e) (body s e))
