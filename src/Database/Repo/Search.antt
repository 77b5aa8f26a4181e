-- ===== src/Database/Repo/Search.antt =====
-- The cursor loops of the repository over the entries of a bucket.
use mathlib.Core.Path.{subst}
use mathlib.Core.List.{append-nil, append_assoc}
use go_gwiot.Prelude.{
  ℕ, ◌<◌, ◌≡◌, refl, sym, ap, ◌∙◌, Bool, true, false, some, List, [], ◌∷◌, ◌++◌, reverse, map,
  arith, length, length-reverse, length-drop_while, Bool-cases, inl, inr, take_while, drop_while,
}
use go_gwiot.Prelude.Bytes.{Bytes, bytes_lt, has_prefix}
use go_gwiot.Database.Bolt.{Bolt, CursorLaws, Entry, Yields, BucketPath, database}
use go_gwiot.Database.Bolt.Cursor.{Flow, go, over, for_loop-over}
use go_gwiot.Database.Repo.{walk, every, prefixed, search_collections}

-- The entries that a walk meets, until one of them has not the prefix.
abbrev pub route : Bytes → Bool → List Entry → List Entry
route [] false l = l
route [] true l = reverse l
route (x ∷ p) false l = drop_while (λ e. bytes_lt e.0 (x ∷ p)) l
route (x ∷ p) true l = reverse l

prefixed-nil : (e : Entry) → prefixed [] e ≡ true
unfolding has_prefix
prefixed-nil e = refl

abbrev pub name_of : Entry → Bytes
name_of e = e.0

module _ (b : Bolt) (laws : CursorLaws b) where
  open b use {Tx, has_bucket, Cursor, cursor, first, last, next, prev, seek}

  -- With more fuel than the bucket has entries, a walk runs over its route.
  pub walk-over :
      {S : Type 0} (fuel : ℕ) (body : S → Entry → Flow S) (s : S) (t : Tx) (p : BucketPath)
      (prefix_id : Bytes) (reversed : Bool)
      → length (laws.listing t p) < fuel
      → walk b fuel body s (cursor t p) prefix_id reversed
        ≡ some (over (prefixed prefix_id) body s (route prefix_id reversed (laws.listing t p)))
  unfolding walk has_prefix
  walk-over fuel body s t p [] false h =
      for_loop-over next every body laws.ahead laws.next-Yields fuel s (laws.listing t p)
        (first (cursor t p))
        (subst (λ l. Yields laws.ahead l (first (cursor t p))) (laws.cursor-all t p)
          (laws.first-Yields (cursor t p)))
        h
  walk-over fuel body s t p [] true h =
      for_loop-over prev every body laws.behind laws.prev-Yields fuel s (reverse (laws.listing t p))
        (last (cursor t p))
        (subst (λ l. Yields laws.behind (reverse l) (last (cursor t p))) (laws.cursor-all t p)
          (laws.last-Yields (cursor t p)))
        (omega (arith, length-reverse (laws.listing t p)))
  walk-over fuel body s t p (x ∷ q) false h =
      for_loop-over next (prefixed (x ∷ q)) body laws.ahead laws.next-Yields fuel s
        (drop_while (λ e. bytes_lt e.0 (x ∷ q)) (laws.listing t p)) (seek (cursor t p) (x ∷ q))
        (subst
          (λ l.
            Yields laws.ahead (drop_while (λ e. bytes_lt e.0 (x ∷ q)) l)
              (seek (cursor t p) (x ∷ q)))
          (laws.cursor-all t p) (laws.seek-Yields (cursor t p) (x ∷ q)))
        (omega (arith, length-drop_while (λ (e : Entry). bytes_lt e.0 (x ∷ q)) (laws.listing t p)))
  walk-over fuel body s t p (x ∷ q) true h =
      let c = (seek (cursor t p) (x ∷ q)).0 in
      for_loop-over prev (prefixed (x ∷ q)) body laws.behind laws.prev-Yields fuel s
        (reverse (laws.listing t p)) (last c)
        (subst (λ l. Yields laws.behind (reverse l) (last c))
          (laws.seek-all (cursor t p) (x ∷ q) ∙ laws.cursor-all t p) (laws.last-Yields c))
        (omega (arith, length-reverse (laws.listing t p)))

-- The loop of `SearchCollections` collects the names of the entries that it runs over.
over-names :
    (test : Entry → Bool) (names : List Bytes) (l : List Entry)
    → (over test (λ acc e. go (acc ++ e.0 ∷ [])) names l).0
      ≡ names ++ map name_of (take_while test l)
unfolding over
over-names test names [] = sym (append-nil names)
over-names test names (e ∷ l) = elim (Bool-cases (test e)) [
  | inl t ↦
      rw (t, over)
        (over-names test (names ++ e.0 ∷ []) l
          ∙ append_assoc names (e.0 ∷ []) (map name_of (take_while test l)))
  | inr t ↦ rw (t, over) (sym (append-nil names))
]

module _ (b : Bolt) (laws : CursorLaws b) where
  open b use {Tx, has_bucket}

  -- With more fuel than the database has collections, `SearchCollections` of a database that is there
  -- returns the names along its route, up to the first one that has not the prefix: without
  -- `reverse` from the first name that is not below the prefix upwards, with it from the greatest
  -- name downwards.
  pub search_collections-route :
      (fuel : ℕ) (names : List Bytes) (db prefix_id : Bytes) (reversed : Bool) (t : Tx)
      → has_bucket t (database db) ≡ true
      → length (laws.listing t (database db)) < fuel
      → search_collections b fuel names db prefix_id reversed t
        ≡ some (
            names
            ++ map name_of (
                take_while
                  (prefixed prefix_id)
                  (route prefix_id reversed (laws.listing t (database db)))))
  unfolding search_collections
  search_collections-route fuel names db prefix_id reversed t has h =
      rw
        (
          has,
          walk-over b laws fuel (λ acc e. go (acc ++ e.0 ∷ [])) names t (database db) prefix_id
              reversed h,
        )
        (ap some (
          over-names (prefixed prefix_id) names
            (route prefix_id reversed (laws.listing t (database db)))))
