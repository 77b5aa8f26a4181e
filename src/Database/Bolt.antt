-- ===== src/Database/Bolt.antt =====
-- What the repository uses of go.etcd.io/bbolt, whose code is not in the repository: buckets inside
-- buckets, cursors in key order, and transactions, with the laws that its documentation states.
pub mod Cursor
use go_gwiot.Prelude.{
  ◌≡◌, ◌≢◌, Bool, true, false, ◌&&◌, ◌||◌, Option, none, some, List, [], ◌∷◌, reverse, drop_while,
  if◌then◌else◌,
}
use go_gwiot.Prelude.Bytes.{Bytes, bytes_lt, bytes_eq}
use go_gwiot.Database.Errors.{Error, Result, returned, failed}

-- A key and its value; the value of a nested bucket's name is nil, read as no bytes.
abbrev pub Entry : Type 0
Entry = Bytes × Bytes

-- A bucket of a database, or one of its nested buckets, a collection.
pub data BucketPath : Type 0 where
  database : Bytes → BucketPath
  collection : Bytes → Bytes → BucketPath

abbrev pub path_eq : BucketPath → BucketPath → Bool
path_eq (database a) (database b) = bytes_eq a b
path_eq (collection a c) (collection b d) = bytes_eq a b && bytes_eq c d
path_eq _ _ = false

-- What a move of a cursor returns, given the entries that lie ahead of it in the move's direction.
abbrev pub Yields : {C : Type 0} → (C → List Entry) → List Entry → C × Option Entry → Type 0
Yields left [] (c, o) = o ≡ none
Yields left (e ∷ rest) (c, o) = (o ≡ some e) × (left c ≡ rest)

-- The keys are strictly increasing.
abbrev pub IsAscending : List Entry → Type 0
IsAscending [] = Unit
IsAscending (e ∷ []) = Unit
IsAscending (e ∷ f ∷ rest) = (bytes_lt e.0 f.0 ≡ true) × IsAscending (f ∷ rest)

-- bbolt, as the repository calls it.
pub record Bolt : Type 1 where
  -- the data that a transaction sees
  pub Tx : Type 0
  pub has_bucket : Tx → BucketPath → Bool
  pub create_bucket : Tx → BucketPath → Result Tx
  pub get : Tx → BucketPath → Bytes → Option Bytes
  pub put : Tx → BucketPath → Bytes → Bytes → Result Tx
  pub delete : Tx → BucketPath → Bytes → Result Tx
  -- cursors
  pub Cursor : Type 0
  pub cursor : Tx → BucketPath → Cursor
  pub first : Cursor → Cursor × Option Entry
  pub last : Cursor → Cursor × Option Entry
  pub next : Cursor → Cursor × Option Entry
  pub prev : Cursor → Cursor × Option Entry
  pub seek : Cursor → Bytes → Cursor × Option Entry

module _ (b : Bolt) where
  open b use {
    Tx, has_bucket, create_bucket, get, put, delete, Cursor, cursor, first, last, next, prev, seek,
  }

  -- The documented behaviour of buckets. A read of a bucket that is not there finds nothing, a nested
  -- bucket stands in its database, creation adds an empty bucket or keeps the one that is there, and
  -- a write or a deletion shows at its own key of its own bucket and nowhere else.
  pub record BucketLaws : Type 0 where
    pub absent-get :
        (t : Tx) (p : BucketPath) (k : Bytes) → has_bucket t p ≡ false → get t p k ≡ none
    pub nested-has :
        (t : Tx) (db coll : Bytes)
        → has_bucket t (collection db coll) ≡ true
        → has_bucket t (database db) ≡ true
    pub create-has :
        (t t' : Tx) (p q : BucketPath)
        → create_bucket t p ≡ returned t'
        → has_bucket t' q ≡ (path_eq p q || has_bucket t q)
    pub create-get :
        (t t' : Tx) (p q : BucketPath) (k : Bytes)
        → create_bucket t p ≡ returned t'
        → get t' q k ≡ get t q k
    pub put-has :
        (t t' : Tx) (p q : BucketPath) (k v : Bytes)
        → put t p k v ≡ returned t'
        → has_bucket t' q ≡ has_bucket t q
    pub put-get :
        (t t' : Tx) (p q : BucketPath) (k j v : Bytes)
        → put t p k v ≡ returned t'
        → get t' q j ≡ (if path_eq p q && bytes_eq k j then some v else get t q j)
    pub delete-has :
        (t t' : Tx) (p q : BucketPath) (k : Bytes)
        → delete t p k ≡ returned t'
        → has_bucket t' q ≡ has_bucket t q
    pub delete-get :
        (t t' : Tx) (p q : BucketPath) (k j : Bytes)
        → delete t p k ≡ returned t'
        → get t' q j ≡ (if path_eq p q && bytes_eq k j then none else get t q j)

  -- The documented behaviour of cursors: they walk over the bucket's entries in key order.
  pub record CursorLaws : Type 0 where
    -- the entries of the bucket, those after the cursor, and those before it, nearest first
    pub all : Cursor → List Entry
    pub ahead : Cursor → List Entry
    pub behind : Cursor → List Entry
    pub listing : Tx → BucketPath → List Entry
    pub listing-IsAscending : (t : Tx) (p : BucketPath) → IsAscending (listing t p)
    pub cursor-all : (t : Tx) (p : BucketPath) → all (cursor t p) ≡ listing t p
    pub first-Yields : (c : Cursor) → Yields ahead (all c) (first c)
    pub next-Yields : (c : Cursor) → Yields ahead (ahead c) (next c)
    pub last-Yields : (c : Cursor) → Yields behind (reverse (all c)) (last c)
    pub prev-Yields : (c : Cursor) → Yields behind (behind c) (prev c)
    pub seek-Yields :
        (c : Cursor) (p : Bytes)
        → Yields ahead (drop_while (λ e. bytes_lt e.0 p) (all c)) (seek c p)
    pub seek-all : (c : Cursor) (p : Bytes) → all (seek c p).0 ≡ all c
