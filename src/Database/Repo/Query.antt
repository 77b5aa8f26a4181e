-- ===== src/Database/Repo/Query.antt =====
-- The streamed query and the last record.
use mathlib.Core.List.{append-nil, append_assoc}
use go_gwiot.Prelude.{
  ℕ, suc, ◌<◌, ◌≡◌, ◌≢◌, refl, sym, ap, ◌∙◌, Bool, true, false, none, some, List, [], ◌∷◌, ◌++◌,
  map, arith, length, filter, take_while, Bool-cases, inl, inr, ◌⊎◌,
}
use go_gwiot.Prelude.Bytes.{Bytes, has_prefix}
use go_gwiot.Database.Bolt.{Bolt, CursorLaws, Entry, database, collection}
use go_gwiot.Database.Bolt.Cursor.{go, over}
use go_gwiot.Database.Repo.{
  Turn, stopped, sent, timed_out, QueryType, prefixed, send_row, query_data, exit_value, last_data,
}
use go_gwiot.Database.Repo.Search.{route, walk-over}
use go_gwiot.Database.Repo.Ordered.{route-filter}

abbrev pub row : Entry → QueryType
row (k, v) = record { id = k; content = v }

-- The rows that reach the receiver: those whose send is not timed out, up to the first round that finds
-- `stop` closed.
unfoldable pub received : (ℕ → Turn) → ℕ → List Entry → List QueryType
received turns n [] = []
received turns n (e ∷ l) = elim (turns n) [
  | stopped ↦ []
  | sent ↦ row e ∷ received turns (suc n) l
  | timed_out ↦ received turns (suc n) l
]

Turn-cases : (t : Turn) → (t ≡ stopped) ⊎ (t ≡ sent) ⊎ (t ≡ timed_out)
Turn-cases t = ground arith

over-rows :
    (turns : ℕ → Turn) (test : Entry → Bool) (rows : List QueryType) (n : ℕ) (l : List Entry)
    → (over test (send_row turns) (rows, n) l).0.0 ≡ rows ++ received turns n (take_while test l)
unfolding over received
over-rows turns test rows n [] = sym (append-nil rows)
over-rows turns test rows n (e ∷ l) = elim (Bool-cases (test e)) [
  | inr t ↦ rw (t, over) (sym (append-nil rows))
  | inl t ↦ elim (Turn-cases (turns n)) [
    | inl s ↦ rw (t, s, over, received) (sym (append-nil rows))
    | inr (inl s) ↦
        rw (t, s, over, received)
          (over-rows turns test (rows ++ row e ∷ []) (suc n) l
            ∙ append_assoc rows (row e ∷ []) (received turns (suc n) (take_while test l)))
    | inr (inr s) ↦ rw (t, s, over, received) (over-rows turns test rows (suc n) l)
  ]
]

received-sent :
    (turns : ℕ → Turn) (n : ℕ) (l : List Entry)
    → ((i : ℕ) → turns i ≡ sent)
    → received turns n l ≡ map row l
unfolding received
received-sent turns n [] h = refl
received-sent turns n (e ∷ l) h =
    rw (h n, received) (ap (λ r. row e ∷ r) (received-sent turns (suc n) l h))

-- Without a timeout the rows are those of the first entries, and of all unless a round finds `stop`
-- closed.
pub received-first :
    (turns : ℕ → Turn) (n : ℕ) (l : List Entry)
    → ((i : ℕ) → turns i ≢ timed_out)
    → (lost : List QueryType) × (map row l ≡ received turns n l ++ lost)
      × ((lost ≡ []) ⊎ ((i : ℕ) × (turns i ≡ stopped)))
unfolding received
received-first turns n [] h = ([], refl, inl refl)
received-first turns n (e ∷ l) h = elim (Turn-cases (turns n)) [
  | inl s ↦ (row e ∷ map row l, rw (s, received) refl, inr (n, s))
  | inr (inl s) ↦
      let (lost, p, all) = received-first turns (suc n) l h in
      (lost, rw (s, received) (ap (λ r. row e ∷ r) p), all)
  | inr (inr s) ↦ absurd (h n s)
]

over-exit : (l : List Entry) → (over (prefixed []) (λ (s : Unit {0}) e. go s) tt l).1 ≡ none
unfolding over has_prefix
over-exit [] = refl
over-exit (e ∷ l) = over-exit l

module _ (b : Bolt) (laws : CursorLaws b) where
  open b use {Tx, has_bucket}

  -- With more fuel than the collection has records, `QueryData` of a collection that is there hands
  -- the receiver the records along the route of the search, one for each round whose send is not
  -- timed out, until a round finds `stop` closed.
  pub query_data-route :
      (fuel : ℕ) (turns : ℕ → Turn) (db coll prefix_id : Bytes) (reversed : Bool) (t : Tx)
      → has_bucket t (database db) ≡ true
      → has_bucket t (collection db coll) ≡ true
      → length (laws.listing t (collection db coll)) < fuel
      → query_data b fuel turns db coll prefix_id reversed t
        ≡ some (
            received turns 0 (
              take_while
                (prefixed prefix_id)
                (route prefix_id reversed (laws.listing t (collection db coll)))))
  unfolding query_data
  query_data-route fuel turns db coll prefix_id reversed t hd hc h =
      rw
        (
          hd,
          hc,
          walk-over b laws fuel (send_row turns) ([], 0) t (collection db coll) prefix_id reversed
              h,
        )
        (ap some (
          over-rows turns (prefixed prefix_id) [] 0
            (route prefix_id reversed (laws.listing t (collection db coll)))))

  -- The rows of a forward search are those of the records with the prefix, in the order of the keys.
  pub query_data-received :
      (fuel : ℕ) (turns : ℕ → Turn) (db coll prefix_id : Bytes) (t : Tx)
      → has_bucket t (database db) ≡ true
      → has_bucket t (collection db coll) ≡ true
      → length (laws.listing t (collection db coll)) < fuel
      → query_data b fuel turns db coll prefix_id false t
        ≡ some
            (received turns 0 (filter (prefixed prefix_id) (laws.listing t (collection db coll))))
  query_data-received fuel turns db coll prefix_id t hd hc h =
      query_data-route fuel turns db coll prefix_id false t hd hc h
      ∙ ap (λ l. some (received turns 0 l))
          (route-filter prefix_id (laws.listing t (collection db coll))
            (laws.listing-IsAscending t (collection db coll)))

  -- If no send is timed out and `stop` stays open, a query without `reverse` hands the receiver every
  -- record of the collection whose key has the prefix, once each and in ascending order of the keys,
  -- and no other.
  pub query_data_forward :
      (fuel : ℕ) (turns : ℕ → Turn) (db coll prefix_id : Bytes) (t : Tx)
      → has_bucket t (database db) ≡ true
      → has_bucket t (collection db coll) ≡ true
      → length (laws.listing t (collection db coll)) < fuel
      → ((i : ℕ) → turns i ≡ sent)
      → query_data b fuel turns db coll prefix_id false t
        ≡ some (map row (filter (prefixed prefix_id) (laws.listing t (collection db coll))))
  query_data_forward fuel turns db coll prefix_id t hd hc h all =
      query_data-route fuel turns db coll prefix_id false t hd hc h
      ∙ ap some (
          ap (received turns 0) (
            route-filter prefix_id (laws.listing t (collection db coll))
              (laws.listing-IsAscending t (collection db coll)))
          ∙ received-sent turns 0
              (filter (prefixed prefix_id) (laws.listing t (collection db coll))) all)

  -- `Last` with no prefix returns no bytes, whatever records a collection that is there has: its loop
  -- is left when the cursor is past the last record.
  pub last_data_empty :
      (fuel : ℕ) (content db coll : Bytes) (t : Tx)
      → has_bucket t (database db) ≡ true
      → has_bucket t (collection db coll) ≡ true
      → length (laws.listing t (collection db coll)) < fuel
      → last_data b fuel content db coll [] t ≡ some []
  unfolding last_data
  last_data_empty fuel content db coll t hd hc h =
      rw
        (
          hd,
          hc,
          walk-over b laws fuel (λ (s : Unit {0}) e. go s) tt t (collection db coll) [] false h,
        )
        (ap (λ o. some (exit_value o)) (over-exit (laws.listing t (collection db coll))))
