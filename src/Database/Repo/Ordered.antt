-- ===== src/Database/Repo/Ordered.antt =====
-- Searches by prefix in a bucket, whose keys ascend.
use go_gwiot.Prelude.{
  ℕ, ◌<◌, ◌≡◌, refl, sym, ap, ◌∙◌, Bool, true, false, some, List, [], ◌∷◌, ◌++◌, map, arith, length,
  filter, take_while, drop_while, Bool-cases, inl, inr, ◌⊎◌,
}
use mathlib.Core.List.{reverse-append}
use go_gwiot.Prelude.Bytes.{Bytes, bytes_lt, has_prefix}
use go_gwiot.Database.Bolt.{Bolt, CursorLaws, Entry, IsAscending, database}
use go_gwiot.Database.Repo.{prefixed, search_collections}
use go_gwiot.Database.Repo.Search.{route, name_of, search_collections-route}

-- A key with the prefix is not below it.
not-bytes_lt_prefix : (k p : Bytes) → has_prefix k p ≡ true → bytes_lt k p ≡ false
unfolding has_prefix bytes_lt
not-bytes_lt_prefix [] [] h = refl
not-bytes_lt_prefix (x ∷ k) [] h = refl
not-bytes_lt_prefix [] (y ∷ p) h = absurd cc
not-bytes_lt_prefix (x ∷ k) (y ∷ p) h = ground (arith, not-bytes_lt_prefix k p)

-- Between the prefix and a key that has it, every key has it.
has_prefix-between :
    (a k p : Bytes)
    → bytes_lt a p ≡ false
    → bytes_lt a k ≡ true
    → has_prefix k p ≡ true
    → has_prefix a p ≡ true
unfolding has_prefix bytes_lt
has_prefix-between a k [] l m h = refl
has_prefix-between [] k (y ∷ p) l m h = absurd cc
has_prefix-between (x ∷ a) [] (y ∷ p) l m h = absurd cc
has_prefix-between (x ∷ a) (z ∷ k) (y ∷ p) l m h = ground (arith, has_prefix-between a k p)

bytes_lt_trans : (a k c : Bytes) → bytes_lt a k ≡ true → bytes_lt k c ≡ true → bytes_lt a c ≡ true
unfolding bytes_lt
bytes_lt_trans [] [] c l m = absurd cc
bytes_lt_trans [] (y ∷ k) [] l m = absurd cc
bytes_lt_trans [] (y ∷ k) (z ∷ c) l m = refl
bytes_lt_trans (x ∷ a) [] c l m = absurd cc
bytes_lt_trans (x ∷ a) (y ∷ k) [] l m = absurd cc
bytes_lt_trans (x ∷ a) (y ∷ k) (z ∷ c) l m = ground (arith, bytes_lt_trans a k c)

IsAscending-tail : (e : Entry) (l : List Entry) → IsAscending (e ∷ l) → IsAscending l
IsAscending-tail e [] a = tt
IsAscending-tail e (f ∷ l) a = a.1

true-ne-false : {x : Bool} → x ≡ true → x ≡ false → ⊥
true-ne-false p q = cc

-- From `p` on, where a key has not the prefix, no later key has it.
filter-none :
    (p : Bytes) (e : Entry) (l : List Entry)
    → IsAscending (e ∷ l)
    → bytes_lt e.0 p ≡ false
    → prefixed p e ≡ false
    → filter (prefixed p) l ≡ []
filter-none p e [] a n h = refl
filter-none p e (f ∷ l) a n h = elim (Bool-cases (prefixed p f)) [
  | inl t ↦ absurd (true-ne-false (has_prefix-between e.0 f.0 p n a.0 t) h)
  | inr t ↦ rw t (filter-none p f l a.1 (above f a.0 (Bool-cases (bytes_lt f.0 p))) t)
]
  where
    above :
        (f : Entry)
        → bytes_lt e.0 f.0 ≡ true
        → (bytes_lt f.0 p ≡ true) ⊎ (bytes_lt f.0 p ≡ false)
        → bytes_lt f.0 p ≡ false
    above f m (inl b) = absurd (true-ne-false (bytes_lt_trans e.0 f.0 p m b) n)
    above f m (inr b) = b

-- From `p` on, the first run of keys with the prefix is all of them.
take_while-filter :
    (p : Bytes) (e : Entry) (l : List Entry)
    → IsAscending (e ∷ l)
    → bytes_lt e.0 p ≡ false
    → take_while (prefixed p) (e ∷ l) ≡ filter (prefixed p) (e ∷ l)
take_while-filter p e [] a n = ground arith
take_while-filter p e (f ∷ l) a n = elim (Bool-cases (prefixed p e)) [
  | inl t ↦
      rw t (ap (λ r. e ∷ r) (take_while-filter p f l a.1 (above (Bool-cases (bytes_lt f.0 p)))))
  | inr t ↦ rw t (sym (filter-none p e (f ∷ l) a n t))
]
  where
    above : (bytes_lt f.0 p ≡ true) ⊎ (bytes_lt f.0 p ≡ false) → bytes_lt f.0 p ≡ false
    above (inl b) = absurd (true-ne-false (bytes_lt_trans e.0 f.0 p a.0 b) n)
    above (inr b) = b

forward-filter :
    (p : Bytes) (l : List Entry)
    → IsAscending l
    → take_while (prefixed p) (drop_while (λ e. bytes_lt e.0 p) l) ≡ filter (prefixed p) l
forward-filter p [] a = refl
forward-filter p (e ∷ l) a = elim (Bool-cases (bytes_lt e.0 p)) [
  | inl t ↦
      rw (t, not-prefixed (Bool-cases (prefixed p e)) t)
        (forward-filter p l (IsAscending-tail e l a))
  | inr t ↦ rw t (take_while-filter p e l a t)
]
  where
    not-prefixed :
        (prefixed p e ≡ true) ⊎ (prefixed p e ≡ false)
        → bytes_lt e.0 p ≡ true
        → prefixed p e ≡ false
    not-prefixed (inl b) t = absurd (true-ne-false t (not-bytes_lt_prefix e.0 p b))
    not-prefixed (inr b) t = b

pub route-filter :
    (p : Bytes) (l : List Entry)
    → IsAscending l
    → take_while (prefixed p) (route p false l) ≡ filter (prefixed p) l
unfolding has_prefix
route-filter [] l a = all-pass l
  where
    all-pass : (l : List Entry) → take_while (prefixed []) l ≡ filter (prefixed []) l
    all-pass [] = refl
    all-pass (e ∷ l) = ap (λ r. e ∷ r) (all-pass l)
route-filter (x ∷ p) l a = forward-filter (x ∷ p) l a

-- A walk downwards ends at once if the greatest key has not the prefix.
reverse_route_misses :
    (x : ℕ) (p : Bytes) (l : List Entry) (e : Entry)
    → prefixed (x ∷ p) e ≡ false
    → take_while (prefixed (x ∷ p)) (route (x ∷ p) true (l ++ e ∷ [])) ≡ []
reverse_route_misses x p l e h = rw (reverse-append l (e ∷ []), h)

module _ (b : Bolt) (laws : CursorLaws b) where
  open b use {Tx, has_bucket}

  -- Without `reverse`, and with more fuel than the database has collections, `SearchCollections` of a
  -- database that is there returns the names of all the collections whose name has the prefix, in
  -- ascending order, and no other.
  pub search_collections_forward :
      (fuel : ℕ) (db prefix_id : Bytes) (t : Tx)
      → has_bucket t (database db) ≡ true
      → length (laws.listing t (database db)) < fuel
      → search_collections b fuel [] db prefix_id false t
        ≡ some (map name_of (filter (prefixed prefix_id) (laws.listing t (database db))))
  search_collections_forward fuel db prefix_id t has h =
      search_collections-route b laws fuel [] db prefix_id false t has h
      ∙ ap (λ l. some (map name_of l))
          (route-filter prefix_id (laws.listing t (database db))
            (laws.listing-IsAscending t (database db)))

  -- With `reverse` and a prefix, `SearchCollections` returns nothing if the greatest name of the
  -- database has not the prefix, even where other names have it.
  pub search_collections_reverse_misses :
      (fuel : ℕ) (db p : Bytes) (x : ℕ) (t : Tx) (l : List Entry) (e : Entry)
      → has_bucket t (database db) ≡ true
      → length (laws.listing t (database db)) < fuel
      → laws.listing t (database db) ≡ l ++ e ∷ []
      → has_prefix e.0 (x ∷ p) ≡ false
      → search_collections b fuel [] db (x ∷ p) true t ≡ some []
  search_collections_reverse_misses fuel db p x t l e has h eq n =
      search_collections-route b laws fuel [] db (x ∷ p) true t has h
      ∙ ap (λ m. some (map name_of (take_while (prefixed (x ∷ p)) (route (x ∷ p) true m)))) eq
      ∙ ap (λ m. some (map name_of m)) (reverse_route_misses x p l e n)
