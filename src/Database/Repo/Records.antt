-- ===== src/Database/Repo/Records.antt =====
-- Single records: what a write, a read and a deletion are to one another.
use go_gwiot.Prelude.{
  ◌≡◌, refl, sym, ap, ◌∙◌, Bool, true, false, not, ◌&&◌, Option, none, some, [], ◌++◌,
  if◌then◌else◌, Bool-cases, inl, inr, arith,
}
use go_gwiot.Prelude.Bytes.{Bytes, bytes_eq}
use go_gwiot.Database.Errors.{data_update_not_allow, Result, returned, failed, >>=-eq-returned}
use go_gwiot.Database.Bolt.{Bolt, BucketLaws, BucketPath, database, collection, path_eq}
use go_gwiot.Database.Repo.{is_blank, is_some, persist_data, get_data, remove_data}

abbrev pub or_empty : Option Bytes → Bytes
or_empty none = []
or_empty (some v) = v

-- A read of what a write leaves, for either outcome of the test on its place.
read-if :
    (here : Bool) (v : Bytes) (o o' : Option Bytes) (before : Result Bytes)
    → o ≡ o'
    → returned (or_empty o') ≡ before
    → returned (or_empty (if here then some v else o)) ≡ (if here then returned v else before)
read-if true v o o' before e h = refl
read-if false v o o' before e h = ap (λ x. returned (or_empty x)) e ∙ h

cleared-if :
    (here : Bool) (o : Option Bytes) (before : Result Bytes)
    → returned (or_empty o) ≡ before
    → returned (or_empty (if here then none else o)) ≡ (if here then returned [] else before)
cleared-if true o before h = refl
cleared-if false o before h = h

free-none :
    (update : Bool) (o : Option Bytes)
    → update ≡ false
    → (not update && is_some o) ≡ false
    → o ≡ none
free-none update none u h = refl
free-none update (some v) u h = ground (arith, u, h)

module _ (b : Bolt) (laws : BucketLaws b) where
  open b use {Tx, has_bucket, create_bucket, get, put, delete}

  -- Reading a record finds its bytes, or none where the record or a bucket is missing.
  pub get_data-get :
      (t : Tx) (db coll id : Bytes)
      → is_blank id ≡ false
      → get_data b [] id db coll t ≡ returned (or_empty (get t (collection db coll) id))
  unfolding get_data
  get_data-get t db coll id n = elim (Bool-cases (has_bucket t (collection db coll))) [
    | inl e ↦ rw (laws.nested-has t db coll e, e, n) (found (get t (collection db coll) id))
    | inr e ↦
        rw (e, laws.absent-get t (collection db coll) id e) (missing (has_bucket t (database db)))
  ]
    where
      missing :
          (d : Bool)
          → ◌≡◌ {A = Result Bytes} (if not d then returned [] else returned []) (returned [])
      missing true = refl
      missing false = refl

      found :
          (o : Option Bytes)
          → (elim o [ none ↦ returned [] | some value ↦ returned ([] ++ value) ])
            ≡ returned (or_empty o)
      found none = refl
      found (some v) = refl

  -- The parts of a write that succeeds.
  pub persist_data-put :
      (fresh : Result Bytes) (id content db coll : Bytes) (update : Bool) (t t' : Tx)
      → is_blank id ≡ false
      → persist_data b fresh id content db coll update t ≡ returned t'
      → (t2 : Tx) × ((p : BucketPath) (k : Bytes) → get t2 p k ≡ get t p k)
        × (put t2 (collection db coll) id content ≡ returned t')
        × ((not update && is_some (get t (collection db coll) id)) ≡ false)
  unfolding persist_data
  persist_data-put fresh id content db coll update t t' n h =
      let (t1, c1, h1) = >>=-eq-returned (create_bucket t (database db)) _ h in
      let (t2, c2, h2) = >>=-eq-returned (create_bucket t1 (collection db coll)) _ h1 in
      let same : (p : BucketPath) (k : Bytes) → get t2 p k ≡ get t p k = λ p k.
        laws.create-get t1 t2 (collection db coll) p k c2
        ∙ laws.create-get t t1 (database db) p k c1 in
      let last = written t1 t2 (rw n at h2) in
      (
        t2,
        same,
        last.0,
        ap (λ o. not update && is_some o) (sym (same (collection db coll) id)) ∙ last.1,
      )
    where
      written :
          (t1 t2 : Tx)
          → (if not update && is_some (get t2 (collection db coll) id)
              then failed data_update_not_allow
              else put t2 (collection db coll) id content)
            ≡ returned t'
          → (put t2 (collection db coll) id content ≡ returned t')
            × ((not update && is_some (get t2 (collection db coll) id)) ≡ false)
      written t1 t2 h = elim (Bool-cases (not update && is_some (get t2 (collection db coll) id))) [
        | inl e ↦ absurd (let h' : failed data_update_not_allow ≡ returned t' = rw e at h in cc)
        | inr e ↦ (rw e at h, e)
      ]

  -- After a successful write under a key that is not empty, a read of any record under such a key, in
  -- any collection of any database, returns the bytes written if it is that record, and what it
  -- returned before otherwise; and an insertion, as opposed to an update, has found no record.
  pub persist_get :
      (fresh : Result Bytes) (id content db coll : Bytes) (update : Bool) (t t' : Tx)
      (db' coll' id' : Bytes)
      → is_blank id ≡ false
      → is_blank id' ≡ false
      → persist_data b fresh id content db coll update t ≡ returned t'
      → (get_data b [] id' db' coll' t' ≡ (
          if path_eq (collection db coll) (collection db' coll') && bytes_eq id id'
          then returned content
          else get_data b [] id' db' coll' t))
        × (update ≡ false → get t (collection db coll) id ≡ none)
  persist_get fresh id content db coll update t t' db' coll' id' n n' h =
      let (t2, same, wrote, free) = persist_data-put fresh id content db coll update t t' n h in
      let here = path_eq (collection db coll) (collection db' coll') && bytes_eq id id' in
      (
        get_data-get t' db' coll' id' n'
            ∙ ap (λ o. returned (or_empty o))
                (laws.put-get t2 t' (collection db coll) (collection db' coll') id id' content
                  wrote)
            ∙ read-if here content (get t2 (collection db' coll') id')
                (get t (collection db' coll') id') (get_data b [] id' db' coll' t)
                (same (collection db' coll') id') (sym (get_data-get t db' coll' id' n')),
        λ u. free-none update (get t (collection db coll) id) u free,
      )

  remove_data-delete :
      (id db coll : Bytes) (t t' : Tx)
      → remove_data b id db coll t ≡ returned t'
      → delete t (collection db coll) id ≡ returned t'
  unfolding remove_data
  remove_data-delete id db coll t t' h = ground arith

  -- After a successful deletion, a read of the record returns no bytes, and a read of any other
  -- record returns what it returned before. Where a bucket is missing the deletion fails.
  pub remove_get :
      (id db coll : Bytes) (t t' : Tx) (db' coll' id' : Bytes)
      → is_blank id' ≡ false
      → remove_data b id db coll t ≡ returned t'
      → (get_data b [] id' db' coll' t' ≡ (
          if path_eq (collection db coll) (collection db' coll') && bytes_eq id id'
          then returned []
          else get_data b [] id' db' coll' t))
        × (has_bucket t (collection db coll) ≡ true)
  unfolding remove_data
  remove_get id db coll t t' db' coll' id' n' h = (
    get_data-get t' db' coll' id' n'
        ∙ ap (λ o. returned (or_empty o))
            (laws.delete-get t t' (collection db coll) (collection db' coll') id id'
              (remove_data-delete id db coll t t' h))
        ∙ cleared-if (path_eq (collection db coll) (collection db' coll') && bytes_eq id id')
            (get t (collection db' coll') id') (get_data b [] id' db' coll' t)
            (sym (get_data-get t db' coll' id' n')),
    ground arith,
  )
