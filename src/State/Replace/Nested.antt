-- ===== src/State/Replace/Nested.antt =====
-- The order of the iterations over a message and over all maps inside it, which Go leaves open, and the
-- renamed message.
use go_gwiot.Prelude.{
  String, ◌≡◌, ◌≢◌, refl, sym, ap, ◌∙◌, true, false, none, some, ◌↔◌, Bool-cases, Option-cases, inl,
  inr, eq_refl,
}
use mathlib.Core.Path.{subst}
use go_gwiot.State.Value.{
  Value, null, object, slice, Items, nil, cons, Fields, end, field, get, get_nil, is_null, is_empty,
  IsMap, get_nil-some,
}
use go_gwiot.State.Replace.{replace_value, replace_items, replace_into, replace_keys}
use go_gwiot.State.Replace.Lookup.{last_named, get-replace_keys}
use go_gwiot.State.Replace.Order.{IsCollisionFree, Source, last_named-Source, last_named-held}
use go_gwiot.State.Replace.Shape.{replace_keys_shape}

-- The same keys are there.
abbrev pub SameKeys : Fields → Fields → Type 0
SameKeys m m' = (k : String) → (get m k ≡ none) ↔ (get m' k ≡ none)

-- Two values that differ in the order of the entries of maps, at any depth, if those maps satisfy `Free`.
mutual
  pub data Reordered (Free : Fields → Type 0) : Value → Value → Type 0 where
    as_is : (v : Value) → Reordered Free v v
    objects :
        (m m' : Fields)
        → IsMap m
        → IsMap m'
        → Free m
        → SameKeys m m'
        → ((k : String) → Reordered Free (get_nil m k) (get_nil m' k))
        → Reordered Free (object m) (object m')
    slices : (xs ys : Items) → ReorderedItems Free xs ys → Reordered Free (slice xs) (slice ys)

  pub data ReorderedItems (Free : Fields → Type 0) : Items → Items → Type 0 where
    nils : ReorderedItems Free nil nil
    conses :
        (v w : Value) (xs ys : Items)
        → Reordered Free v w
        → ReorderedItems Free xs ys
        → ReorderedItems Free (cons v xs) (cons w ys)

-- Any maps.
abbrev pub Any : Fields → Type 0
Any m = Unit

mutual
  weaken : (v w : Value) → Reordered IsCollisionFree v w → Reordered Any v w
  weaken _ _ (as_is v) = as_is v
  weaken _ _ (objects m m' u u' f same h) =
      objects m m' u u' tt same (λ k. weaken (get_nil m k) (get_nil m' k) (h k))
  weaken _ _ (slices xs ys h) = slices xs ys (weaken_items xs ys h)

  weaken_items : (xs ys : Items) → ReorderedItems IsCollisionFree xs ys → ReorderedItems Any xs ys
  weaken_items _ _ nils = nils
  weaken_items _ _ (conses v w xs ys h hs) = conses v w xs ys (weaken v w h) (weaken_items xs ys hs)

Reordered-is_null :
    {Free : Fields → Type 0} (v w : Value) → Reordered Free v w → is_null v ≡ is_null w
Reordered-is_null _ _ (as_is v) = refl
Reordered-is_null _ _ (objects m m' u u' f same h) = refl
Reordered-is_null _ _ (slices xs ys h) = refl

get_nil-none : (m : Fields) (k : String) → get m k ≡ none → get_nil m k ≡ null
unfolding get_nil
get_nil-none m k e = rw (get_nil, e) refl

get-kept : (m : Fields) (k : String) → is_null (get_nil m k) ≡ false → get m k ≡ some (get_nil m k)
get-kept m k n = elim (Option-cases (get m k)) [
  | inl e ↦ absurd (let no : true ≡ false = sym (ap is_null (get_nil-none m k e)) ∙ n in cc)
  | inr (v, e) ↦ e ∙ ap some (sym (get_nil-some m k v e))
]

-- The same fields are nil or missing.
abbrev SameNull : Fields → Fields → Type 0
SameNull m m' = (k : String) → is_null (get_nil m k) ≡ is_null (get_nil m' k)

last_named-there :
    (m m' : Fields) (j : String) (w : Value) → SameNull m m' → Source m j w → last_named j m' ≢ none
last_named-there m m' j w same s e =
    let n : is_null (get_nil m' s.key) ≡ false =
      sym (same s.key) ∙ ap is_null (get_nil-some m s.key s.value s.held) ∙ s.kept in
    last_named-held m' s.key (get_nil m' s.key) (get-kept m' s.key n) n
      (ap (λ i. last_named i m') s.renamed ∙ e)

last_named-none :
    (m m' : Fields) (j : String)
    → IsMap m'
    → SameNull m m'
    → last_named j m ≡ none
    → last_named j m' ≡ none
last_named-none m m' j u' same e = elim (Option-cases (last_named j m')) [
  | inl e' ↦ e'
  | inr (w, e') ↦
      absurd (last_named-there m' m j w (λ k. sym (same k)) (last_named-Source m' j w u' e') e)
]

-- Both orders take the value at a key from one field.
last_named-one :
    (m m' : Fields) (j : String) (w w' : Value)
    → IsMap m
    → IsMap m'
    → IsCollisionFree m
    → SameNull m m'
    → last_named j m ≡ some w
    → last_named j m' ≡ some w'
    → (k : String) × (w ≡ replace_value (get_nil m k)) × (w' ≡ replace_value (get_nil m' k))
last_named-one m m' j w w' u u' free same e e' =
    let s = last_named-Source m j w u e in
    let s' = last_named-Source m' j w' u' e' in
    let n : is_null (get_nil m s'.key) ≡ false =
      same s'.key ∙ ap is_null (get_nil-some m' s'.key s'.value s'.held) ∙ s'.kept in
    let keys : s.key ≡ s'.key =
      free s.key s'.key s.value (get_nil m s'.key) s.held (get-kept m s'.key n) s.kept n
        (s.renamed ∙ sym s'.renamed) in
    (
      s.key,
      sym s.result ∙ ap replace_value (sym (get_nil-some m s.key s.value s.held)),
      sym s'.result
          ∙ ap replace_value (sym (get_nil-some m' s'.key s'.value s'.held))
          ∙ ap (λ k. replace_value (get_nil m' k)) (sym keys),
    )

is_empty-same : (r r' : Fields) → SameKeys r r' → is_empty r ≡ is_empty r'
unfolding get
is_empty-same end end same = refl
is_empty-same end (field k v m) same =
    absurd (let no : some v ≡ none = rw eq_refl at ((same k).0 refl) in cc)
is_empty-same (field k v m) end same =
    absurd (let no : some v ≡ none = rw eq_refl at ((same k).1 refl) in cc)
is_empty-same (field k v m) (field j w n) same = refl

module _ (m m' : Fields) (u : IsMap m) (u' : IsMap m') (free : IsCollisionFree m)
    (nulls : SameNull m m')
    (ih : (k : String)
      → Reordered Any (replace_value (get_nil m k)) (replace_value (get_nil m' k))) where
  replaced-SameKeys : SameKeys (replace_keys m) (replace_keys m')
  replaced-SameKeys j = (
    λ e. get-replace_keys m' j ∙ last_named-none m m' j u' nulls (sym (get-replace_keys m j) ∙ e),
    λ e.
        get-replace_keys m j
        ∙ last_named-none m' m j u (λ k. sym (nulls k)) (sym (get-replace_keys m' j) ∙ e),
  )

  replaced-at :
      (j : String) → Reordered Any (get_nil (replace_keys m) j) (get_nil (replace_keys m') j)
  replaced-at j = elim (Option-cases (last_named j m)) [
    | inl e ↦
        let a = get_nil-none (replace_keys m) j (get-replace_keys m j ∙ e) in
        let b =
          get_nil-none (replace_keys m') j
            (get-replace_keys m' j ∙ last_named-none m m' j u' nulls e) in
        subst (Reordered Any (get_nil (replace_keys m) j)) (a ∙ sym b)
          (as_is (get_nil (replace_keys m) j))
    | inr (w, e) ↦ elim (Option-cases (last_named j m')) [
      | inl e' ↦ absurd (last_named-there m m' j w nulls (last_named-Source m j w u e) e')
      | inr (w', e') ↦
          let (k, p, p') = last_named-one m m' j w w' u u' free nulls e e' in
          let a = get_nil-some (replace_keys m) j w (get-replace_keys m j ∙ e) in
          let b = get_nil-some (replace_keys m') j w' (get-replace_keys m' j ∙ e') in
          subst (λ x. Reordered Any x (get_nil (replace_keys m') j)) (sym (a ∙ p))
            (subst (Reordered Any (replace_value (get_nil m k))) (sym (b ∙ p')) (ih k))
    ]
  ]

  replaced-Reordered : Reordered Any (object (replace_keys m)) (object (replace_keys m'))
  replaced-Reordered =
      objects (replace_keys m) (replace_keys m') (replace_keys_shape m).0 (replace_keys_shape m').0
        tt replaced-SameKeys replaced-at

  object-Reordered :
      Reordered Any (object m) (object m')
      → Reordered Any (replace_value (object m)) (replace_value (object m'))
  unfolding replace_value replace_keys
  object-Reordered kept =
      let same : is_empty (replace_into end m) ≡ is_empty (replace_into end m') =
        is_empty-same (replace_keys m) (replace_keys m') replaced-SameKeys in
      elim (Bool-cases (is_empty (replace_into end m))) [
        | inl e ↦ rw (e, sym same ∙ e) kept
        | inr e ↦ rw (e, sym same ∙ e) replaced-Reordered
      ]

-- What `ReplaceKeys` makes of an element of a slice: only maps are renamed there.
abbrev element : Value → Value
element (object m) = replace_value (object m)
element v = v

replace_items-cons :
    (v : Value) (xs : Items) → replace_items (cons v xs) ≡ cons (element v) (replace_items xs)
unfolding replace_value
replace_items-cons (object m) xs = refl
replace_items-cons _ xs = refl

mutual
  unfolding replace_value

  replace_value-Reordered :
      (v w : Value)
      → Reordered IsCollisionFree v w
      → Reordered Any (replace_value v) (replace_value w)
  replace_value-Reordered _ _ (as_is v) = as_is (replace_value v)
  replace_value-Reordered _ _ (objects m m' u u' f same h) =
      object-Reordered m m' u u' f (λ k. Reordered-is_null (get_nil m k) (get_nil m' k) (h k))
        (λ k. replace_value-Reordered (get_nil m k) (get_nil m' k) (h k))
        (weaken (object m) (object m') (objects m m' u u' f same h))
  replace_value-Reordered _ _ (slices xs ys h) =
      slices (replace_items xs) (replace_items ys) (replace_items-Reordered xs ys h)

  replace_items-Reordered :
      (xs ys : Items)
      → ReorderedItems IsCollisionFree xs ys
      → ReorderedItems Any (replace_items xs) (replace_items ys)
  replace_items-Reordered _ _ nils = nils
  replace_items-Reordered _ _ (conses v w xs ys h hs) =
      subst (λ z. ReorderedItems Any z (replace_items (cons w ys))) (sym (replace_items-cons v xs))
        (subst (ReorderedItems Any (cons (element v) (replace_items xs)))
          (sym (replace_items-cons w ys))
          (conses (element v) (element w) (replace_items xs) (replace_items ys)
            (element-Reordered v w h) (replace_items-Reordered xs ys hs)))

  element-Reordered :
      (v w : Value) → Reordered IsCollisionFree v w → Reordered Any (element v) (element w)
  element-Reordered _ _ (as_is v) = as_is (element v)
  element-Reordered _ _ (objects m m' u u' f same h) =
      object-Reordered m m' u u' f (λ k. Reordered-is_null (get_nil m k) (get_nil m' k) (h k))
        (λ k. replace_value-Reordered (get_nil m k) (get_nil m' k) (h k))
        (weaken (object m) (object m') (objects m m' u u' f same h))
  element-Reordered _ _ (slices xs ys h) = weaken (slice xs) (slice ys) (slices xs ys h)

-- If no two kept fields of the message are renamed to one key, and no two of a map inside it that is
-- iterated over in another order, at any depth, then the renamed message is the same whatever the
-- orders in which Go iterates over the message's map and over the maps inside it, in fields and in
-- slices: two messages that differ in these orders only have renamed messages that differ in the
-- order of the entries of maps only.
pub replace_keys_unordered :
    (m m' : Fields)
    → Reordered IsCollisionFree (object m) (object m')
    → Reordered Any (object (replace_keys m)) (object (replace_keys m'))
replace_keys_unordered _ _ (as_is _) = as_is _
replace_keys_unordered _ _ (objects m m' u u' f same h) =
    replaced-Reordered m m' u u' f (λ k. Reordered-is_null (get_nil m k) (get_nil m' k) (h k))
      (λ k. replace_value-Reordered (get_nil m k) (get_nil m' k) (h k))
