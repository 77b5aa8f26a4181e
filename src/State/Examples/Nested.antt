-- ===== src/State/Examples/Nested.antt =====
-- A message that holds a map, each in two orders, and its theorem at concrete inputs.
use go_gwiot.Prelude.{
  String, ◌≡◌, ◌≢◌, refl, sym, false, some, arith, str_eq, eq_iff, ◌⊎◌, Bool-cases, inl, inr,
}
use mathlib.Core.Path.{subst}
use go_gwiot.State.Value.{Value, null, object, string, Fields, end, field, get, get_nil, IsMap}
use go_gwiot.State.Keys.{rename}
use go_gwiot.State.Replace.{replace_keys}
use go_gwiot.State.Replace.Order.{IsCollisionFree}
use go_gwiot.State.Replace.Nested.{Reordered, as_is, objects, SameKeys, Any, replace_keys_unordered}
use go_gwiot.State.Examples.{
  straight, swapped, straight-IsMap, swapped-IsMap, straight-IsCollisionFree, straight-swapped,
}

abbrev outer : Fields
outer = field "state" (object straight) (field "mac" (string "m1") end)

abbrev outer_swapped : Fields
outer_swapped = field "mac" (string "m1") (field "state" (object swapped) end)

outer-IsMap : IsMap outer
unfolding get
outer-IsMap = (refl, (refl, tt))

outer_swapped-IsMap : IsMap outer_swapped
unfolding get
outer_swapped-IsMap = (refl, (refl, tt))

outer-key : (k : String) (v : Value) → get outer k ≡ some v → (k ≡ "state") ⊎ (k ≡ "mac")
unfolding get
outer-key k v h = ground (arith, eq_iff "state" k, eq_iff "mac" k)

state-mac : rename "state" ≢ rename "mac"
unfolding rename
state-mac e = ground (arith, eq_iff "state" "m")

outer-IsCollisionFree : IsCollisionFree outer
outer-IsCollisionFree k k' v v' h h' n n' e =
    ground (arith, outer-key k v, outer-key k' v', state-mac)

straight-SameKeys : SameKeys straight swapped
unfolding get
straight-SameKeys k = ground (arith, eq_iff "mac" k, eq_iff "hostname" k, eq_iff "mac" "hostname")

outer-SameKeys : SameKeys outer outer_swapped
unfolding get
outer-SameKeys k = ground (arith, eq_iff "state" k, eq_iff "mac" k, eq_iff "mac" "state")

same_values : (k : String) → get_nil straight k ≡ get_nil swapped k
unfolding get_nil
same_values k = rw (get_nil, straight-swapped k) refl

straight-Reordered :
    (k : String) → Reordered IsCollisionFree (get_nil straight k) (get_nil swapped k)
straight-Reordered k =
    subst (Reordered IsCollisionFree (get_nil straight k)) (same_values k)
      (as_is (get_nil straight k))

Reordered-at :
    (v w x y : Value)
    → v ≡ x
    → w ≡ y
    → Reordered IsCollisionFree x y
    → Reordered IsCollisionFree v w
Reordered-at v w x y p q r =
    subst (λ z. Reordered IsCollisionFree z w) (sym p)
      (subst (Reordered IsCollisionFree x) (sym q) r)

outer-Reordered :
    (k : String) → Reordered IsCollisionFree (get_nil outer k) (get_nil outer_swapped k)
unfolding get_nil get
outer-Reordered k = elim (Bool-cases (str_eq "state" k)) [
  | inl e ↦
      let apart : str_eq "mac" k ≡ false =
        ground (arith, eq_iff "mac" k, eq_iff "state" k, eq_iff "mac" "state") in
      Reordered-at (get_nil outer k) (get_nil outer_swapped k) (object straight) (object swapped)
        (rw (get_nil, get, e) refl) (rw (get_nil, get, e, apart) refl)
        (objects straight swapped straight-IsMap swapped-IsMap straight-IsCollisionFree
          straight-SameKeys straight-Reordered)
  | inr e ↦ elim (Bool-cases (str_eq "mac" k)) [
    | inl f ↦
        Reordered-at (get_nil outer k) (get_nil outer_swapped k) (string "m1") (string "m1")
          (rw (get_nil, get, e, f) refl) (rw (get_nil, get, f) refl) (as_is (string "m1"))
    | inr f ↦
        Reordered-at (get_nil outer k) (get_nil outer_swapped k) null null
          (rw (get_nil, get, e, f) refl) (rw (get_nil, get, e, f) refl) (as_is null)
  ]
]

replace_keys_unordered_example :
    Reordered Any (object (replace_keys outer)) (object (replace_keys outer_swapped))
replace_keys_unordered_example = replace_keys_unordered outer outer_swapped (
    objects outer outer_swapped outer-IsMap outer_swapped-IsMap outer-IsCollisionFree outer-SameKeys
      outer-Reordered)
