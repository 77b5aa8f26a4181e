-- ===== src/Database/Repo/Ending.antt =====
-- The search of a query ends.
use go_gwiot.Prelude.{
  ℕ, suc, ◌≤◌, ◌<◌, ◌≡◌, refl, Bool, true, false, some, List, [], ◌∷◌, arith, length,
  length-reverse, length-drop_while, take_while, Bool-cases, inl, inr,
}
use go_gwiot.Prelude.Bytes.{Bytes, bytes_lt}
use go_gwiot.Database.Bolt.{Bolt, CursorLaws, Entry, database, collection}
use go_gwiot.Database.Repo.{
  Turn, stopped, sent, timed_out, QueryType, prefixed, query_data, search_collections,
}
use go_gwiot.Database.Repo.Search.{route, search_collections-route}
use go_gwiot.Database.Repo.Query.{row, received, query_data-route}

length-take_while : (p : Entry → Bool) (xs : List Entry) → length (take_while p xs) ≤ length xs
length-take_while p [] = omega arith
length-take_while p (x ∷ xs) = ground (arith, length-take_while p xs)

length-route :
    (p : Bytes) (reversed : Bool) (l : List Entry) → length (route p reversed l) ≤ length l
length-route [] false l = omega arith
length-route [] true l = omega (arith, length-reverse l)
length-route (x ∷ p) false l = length-drop_while (λ e. bytes_lt e.0 (x ∷ p)) l
length-route (x ∷ p) true l = omega (arith, length-reverse l)

length-received :
    (turns : ℕ → Turn) (n : ℕ) (l : List Entry) → length (received turns n l) ≤ length l
unfolding received
length-received turns n [] = omega arith
length-received turns n (e ∷ l) = turn (turns n) (length-received turns (suc n) l)
  where
    turn :
        (x : Turn)
        → length (received turns (suc n) l) ≤ length l
        → length (elim x [
          | stopped ↦ []
          | sent ↦ row e ∷ received turns (suc n) l
          | timed_out ↦ received turns (suc n) l
        ])
          ≤ suc (length l)
    turn stopped h = omega arith
    turn sent h = omega (arith, h)
    turn timed_out h = omega (arith, h)

length-rows :
    (turns : ℕ → Turn) (test : Entry → Bool) (p : Bytes) (reversed : Bool) (l : List Entry)
    → length (received turns 0 (take_while test (route p reversed l))) ≤ length l
length-rows turns test p reversed l = omega (
  arith,
  length-received turns 0 (take_while test (route p reversed l)),
  length-take_while test (route p reversed l),
  length-route p reversed l,
)

module _ (b : Bolt) (laws : CursorLaws b) where
  open b use {Tx, has_bucket}

  -- `QueryData` ends: whatever the prefix, the direction, the receiver and `stop` do, and whether or not
  -- the buckets are there, one step of fuel more than the collection has records is enough for a
  -- result, which any more fuel does not change, and which has at most as many rows as the
  -- collection has records.
  pub query_data-ends :
      (fuel more : ℕ) (turns : ℕ → Turn) (db coll prefix_id : Bytes) (reversed : Bool) (t : Tx)
      → length (laws.listing t (collection db coll)) < fuel
      → fuel ≤ more
      → (rows : List QueryType) × (length rows ≤ length (laws.listing t (collection db coll)))
        × (query_data b fuel turns db coll prefix_id reversed t ≡ some rows)
        × (query_data b more turns db coll prefix_id reversed t ≡ some rows)
  unfolding query_data
  query_data-ends fuel more turns db coll prefix_id reversed t h l =
      elim (Bool-cases (has_bucket t (database db))) [
        | inr e ↦ ([], omega arith, rw e refl, rw e refl)
        | inl d ↦ elim (Bool-cases (has_bucket t (collection db coll))) [
          | inr e ↦ ([], omega arith, rw (d, e) refl, rw (d, e) refl)
          | inl c ↦ (
            received turns 0 (
                take_while (prefixed prefix_id)
                  (route prefix_id reversed (laws.listing t (collection db coll)))),
            length-rows turns (prefixed prefix_id) prefix_id reversed
                (laws.listing t (collection db coll)),
            query_data-route b laws fuel turns db coll prefix_id reversed t d c h,
            query_data-route b laws more turns db coll prefix_id reversed t d c
                (omega (arith, h, l)),
          )
        ]
      ]

  -- And so does the search for the names of collections.
  pub search_collections-ends :
      (fuel : ℕ) (names : List Bytes) (db prefix_id : Bytes) (reversed : Bool) (t : Tx)
      → length (laws.listing t (database db)) < fuel
      → (found : List Bytes) × (search_collections b fuel names db prefix_id reversed t
          ≡ some found)
  unfolding search_collections
  search_collections-ends fuel names db prefix_id reversed t h =
      elim (Bool-cases (has_bucket t (database db))) [
        | inr e ↦ (names, rw e refl)
        | inl d ↦ (_, search_collections-route b laws fuel names db prefix_id reversed t d h)
      ]
