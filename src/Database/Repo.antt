-- ===== src/Database/Repo.antt =====
-- The transaction bodies of internal/database/repo.go, over bbolt as a parameter. The cursor loops
-- take fuel, and `none` means that it ran out: Repo/Search and Repo/Query show how much is enough.
pub mod Records
pub mod Search
pub mod Ordered
pub mod Query
pub mod Ending
use go_gwiot.Prelude.{
  ℕ, zero, suc, Bool, true, false, not, ◌&&◌, Option, none, some, List, [], ◌∷◌, ◌++◌,
  if◌then◌else◌,
}
use mathlib.Core.Option
use go_gwiot.Prelude.Bytes.{Bytes, has_prefix}
use go_gwiot.Database.Errors.{
  Error, data_update_not_allow, bolt, key_required, bucket_not_found, Result, returned, failed,
  ◌>>=◌,
}
use go_gwiot.Database.Bolt.{Bolt, Entry, BucketPath, database, collection}
use go_gwiot.Database.Bolt.Cursor.{Flow, go, stop, for_loop}

-- `len(id) <= 0`
abbrev pub is_blank : Bytes → Bool
is_blank [] = true
is_blank (x ∷ xs) = false

abbrev pub is_some : Option Bytes → Bool
is_some none = false
is_some (some v) = true

-- `QueryType`; the code leaves its field `Collection` nil.
pub record QueryType : Type 0 where
  pub id : Bytes
  pub content : Bytes

-- How one `select` of `QueryData` ends.
pub data Turn : Type 0 where
  stopped : Turn  -- `<-stop`
  sent : Turn  -- `data <- row`
  timed_out : Turn  -- `<-time.After(10 * time.Second)`

abbrev pub every : Entry → Bool
every e = true

abbrev pub prefixed : Bytes → Entry → Bool
prefixed p e = has_prefix e.0 p

-- The body of the loops of `QueryData`: the rows sent, and the rounds done. `turns n` is how the
-- `select` of round `n` ends; a row whose send times out is skipped.
abbrev pub send_row : (ℕ → Turn) → List QueryType × ℕ → Entry → Flow (List QueryType × ℕ)
send_row turns (rows, n) (k, v) = elim (turns n) [
  | stopped ↦ stop (rows, n)
  | sent ↦ go (rows ++ record { id = k; content = v } ∷ [], suc n)
  | timed_out ↦ go (rows, suc n)
]

-- What the loop variable `v` holds when the loop is left.
abbrev pub exit_value : Option Entry → Bytes
exit_value none = []
exit_value (some (k, v)) = v

module _ (b : Bolt) where
  open b use {
    Tx, has_bucket, create_bucket, get, put, delete, Cursor, cursor, first, last, next, prev, seek,
  }

  -- `uuid.NewUUID()` is `fresh`.
  unfoldable pub persist_data : Result Bytes → Bytes → Bytes → Bytes → Bytes → Bool → Tx → Result Tx
  persist_data fresh id content db coll update tx = do
    tx1 ← create_bucket tx (database db)
    tx2 ← create_bucket tx1 (collection db coll)
    id' ← if is_blank id then fresh else returned id
    (if not update && is_some (get tx2 (collection db coll) id')
        then failed data_update_not_allow
        else put tx2 (collection db coll) id' content)

  -- `*data` goes in and comes out.
  unfoldable pub get_data : Bytes → Bytes → Bytes → Bytes → Tx → Result Bytes
  get_data content id db coll tx =
      if not (has_bucket tx (database db))
      then returned content
      else if not (has_bucket tx (collection db coll))
      then returned content
      else if is_blank id
      then failed (bolt key_required)
      else elim (get tx (collection db coll) id) [
        | none ↦ returned content
        | some value ↦ returned (content ++ value)
      ]

  unfoldable pub remove_data : Bytes → Bytes → Bytes → Tx → Result Tx
  remove_data id db coll tx =
      if not (has_bucket tx (database db))
      then failed (bolt bucket_not_found)
      else if not (has_bucket tx (collection db coll))
      then failed (bolt bucket_not_found)
      else delete tx (collection db coll) id

  -- The loop of the four ways through a bucket: `c.Seek`, `c.First` or `c.Last`, and `c.Next` or
  -- `c.Prev`. With a prefix and in reverse the position of `c.Seek` is given up by `c.Last`.
  unfoldable pub walk :
      {S : Type 0}
      → ℕ
      → (S → Entry → Flow S)
      → S
      → Cursor
      → Bytes
      → Bool
      → Option (S × Option Entry)
  walk fuel body s c [] false = for_loop next every body fuel s (first c)
  walk fuel body s c [] true = for_loop prev every body fuel s (last c)
  walk fuel body s c (x ∷ p) false = for_loop next (prefixed (x ∷ p)) body fuel s (seek c (x ∷ p))
  walk fuel body s c (x ∷ p) true =
      for_loop prev (prefixed (x ∷ p)) body fuel s (last (seek c (x ∷ p)).0)

  -- `SearchCollections`: the names of the buckets inside a database. It never returns an error.
  unfoldable pub search_collections :
      ℕ → List Bytes → Bytes → Bytes → Bool → Tx → Option (List Bytes)
  search_collections fuel names db prefix_id reversed tx =
      if not (has_bucket tx (database db))
      then some names
      else Option.map (λ r. r.0)
          (walk fuel (λ acc e. go (acc ++ e.0 ∷ [])) names (cursor tx (database db)) prefix_id
            reversed)

  -- `QueryData`: the rows that the receiver of the channel gets. It never returns an error.
  unfoldable pub query_data :
      ℕ → (ℕ → Turn) → Bytes → Bytes → Bytes → Bool → Tx → Option (List QueryType)
  query_data fuel turns db coll prefix_id reversed tx =
      if not (has_bucket tx (database db))
      then some []
      else if not (has_bucket tx (collection db coll))
      then some []
      else Option.map (λ r. r.0.0)
          (walk fuel (send_row turns) ([], 0) (cursor tx (collection db coll)) prefix_id reversed)

  -- `Last`: its loops have no body, and `*data` takes the loop variable after them.
  unfoldable pub last_data : ℕ → Bytes → Bytes → Bytes → Bytes → Tx → Option Bytes
  last_data fuel content db coll prefix_id tx =
      if not (has_bucket tx (database db))
      then some content
      else if not (has_bucket tx (collection db coll))
      then some content
      else Option.map (λ r. exit_value r.1)
          (walk fuel (λ (s : Unit {0}) e. go s) tt (cursor tx (collection db coll)) prefix_id false)
