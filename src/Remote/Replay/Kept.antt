-- ===== src/Remote/Replay/Kept.antt =====
-- A replay loses no message: what becomes of each record of the database.
use go_gwiot.Prelude.{
  ◌≡◌, refl, sym, ap, ◌∙◌, Bool, false, ◌&&◌, Option, none, some, List, [], ◌∷◌, ◌++◌, arith,
  if◌then◌else◌, inl, inr, All, Bool-cases, some-injective,
}
use mathlib.Core.List.{append_assoc}
use mathlib.Core.Path.{subst}
use go_gwiot.Prelude.Bytes.{Bytes, bytes_eq, bytes_eq→≡, bytes_eq_refl}
use go_gwiot.State.Value.{ℤ}
use go_gwiot.Remote.Numbers.{parse_int}
use go_gwiot.Remote.Replay.{
  acked, Effect, send_data, update, update_async, delete_without_response, Row, Setting, Replay,
  archive, deleted, database_name, collection_usos_data, query, replay_rows,
}
use go_gwiot.Remote.Replay.Rounds.{
  Handled, left_alone, refused, malformed, archived, delivered, query-Round,
}

-- What the database holds, by database, collection and identifier.
abbrev pub Store : Type 0
Store = Bytes → Bytes → Bytes → Option Bytes

abbrev same_place : Bytes → Bytes → Bytes → Bytes → Bytes → Bytes → Bool
same_place db coll id db' coll' id' = bytes_eq db db' && bytes_eq coll coll' && bytes_eq id id'

abbrev write_at : Bytes → Bytes → Bytes → Option Bytes → Store → Store
write_at db coll id o t =
    λ db' coll' id'. if same_place db coll id db' coll' id' then o else t db' coll' id'

-- The calls that the database carries out.
unfoldable pub carried_out : Store → List Effect → Store
carried_out t [] = t
carried_out t (send_data el reply ∷ es) = carried_out t es
carried_out t (update id el db coll ∷ es) = carried_out (write_at db coll id (some el) t) es
carried_out t (update_async id el db coll ∷ es) = carried_out (write_at db coll id (some el) t) es
carried_out t (delete_without_response id db coll ∷ es) =
    carried_out (write_at db coll id none t) es

pub carried_out-append :
    (t : Store) (xs ys : List Effect) → carried_out t (xs ++ ys) ≡ carried_out (carried_out t xs) ys
unfolding carried_out
carried_out-append t [] ys = refl
carried_out-append t (send_data el reply ∷ es) ys = carried_out-append t es ys
carried_out-append t (update id el db coll ∷ es) ys =
    carried_out-append (write_at db coll id (some el) t) es ys
carried_out-append t (update_async id el db coll ∷ es) ys =
    carried_out-append (write_at db coll id (some el) t) es ys
carried_out-append t (delete_without_response id db coll ∷ es) ys =
    carried_out-append (write_at db coll id none t) es ys

-- An effect is among those that took place.
abbrev pub Took : Effect → List Effect → Type 0
Took e es = (before : List Effect) × (after : List Effect) × (es ≡ before ++ e ∷ after)

Took-append : (e : Effect) (es more : List Effect) → Took e es → Took e (es ++ more)
Took-append e es more (before, after, q) =
    (before, after ++ more, ap (λ l. l ++ more) q ∙ append_assoc before (e ∷ after) more)

Took-here : (e : Effect) (es more : List Effect) → Took e (es ++ e ∷ more)
Took-here e es more = (es, more, refl)

-- Where a message is: still kept, sent and acknowledged, or in an archive; the last case is that of a
-- record whose identifier is no number.
pub data IsSafe (s : Setting) (id el : Bytes) (t : Store) (es : List Effect) : Type 0 where
  kept : t database_name collection_usos_data id ≡ some el → IsSafe s id el t es
  acknowledged : Took (send_data el acked) es → IsSafe s id el t es
  in_archive :
      (tid : ℤ)
      → parse_int id ≡ some tid
      → t database_name (archive s tid) id ≡ some el
      → IsSafe s id el t es
  no_number : parse_int id ≡ none → IsSafe s id el t es

-- An archive has another name than the collection it is taken from.
archive-ne : (s : Setting) (tid : ℤ) → bytes_eq collection_usos_data (archive s tid) ≡ false
unfolding bytes_eq
archive-ne s tid = refl

-- What a deletion and a write to an archive leave as it was.
after_deletion : Bytes → Store → Store
after_deletion rid t = write_at database_name collection_usos_data rid none t

after_archiving : Setting → ℤ → Row → Store → Store
after_archiving s tid row t = write_at database_name (archive s tid) row.id (some row.el) t

deletion-keeps :
    (rid id : Bytes) (t : Store)
    → bytes_eq rid id ≡ false
    → after_deletion rid t database_name collection_usos_data id
      ≡ t database_name collection_usos_data id
unfolding bytes_eq after_deletion
deletion-keeps rid id t n = rw n refl

archiving-reads :
    (s : Setting) (tid tid' : ℤ) (row : Row) (id el : Bytes) (t : Store)
    → (id ≡ row.id → row.el ≡ el)
    → t database_name (archive s tid') id ≡ some el
    → after_archiving s tid row t database_name (archive s tid') id ≡ some el
unfolding after_archiving
archiving-reads s tid tid' row id el t m q =
    elim (Bool-cases
      (same_place database_name (archive s tid) row.id database_name (archive s tid') id)) [
        | inl e ↦ rw e (ap some (m (sym (bytes_eq→≡ row.id id (ground (arith, e))))))
        | inr e ↦ rw e q
      ]

-- The record itself is in the archive once it is written there.
archiving-writes :
    (s : Setting) (tid : ℤ) (row : Row) (t : Store)
    → after_archiving s tid row t database_name (archive s tid) row.id ≡ some row.el
unfolding after_archiving
archiving-writes s tid row t =
    rw (bytes_eq_refl database_name, bytes_eq_refl (archive s tid), bytes_eq_refl row.id) refl

module _ (s : Setting) (row : Row) (id el : Bytes) (same_el : id ≡ row.id → row.el ≡ el) where
  kept-IsSafe :
      (t : Store) (es added : List Effect)
      → Handled s row added
      → t database_name collection_usos_data id ≡ some el
      → IsSafe s id el (carried_out t added) (es ++ added)
  unfolding carried_out after_deletion after_archiving bytes_eq
  kept-IsSafe t es _ left_alone k = kept k
  kept-IsSafe t es _ (refused c reply q) k = kept k
  kept-IsSafe t es _ (malformed p) k = elim (Bool-cases (bytes_eq row.id id)) [
    | inl e ↦ no_number (ap parse_int (sym (bytes_eq→≡ row.id id e)) ∙ p)
    | inr n ↦ kept (deletion-keeps row.id id t n ∙ k)
  ]
  kept-IsSafe t es _ (archived tid p o) k = elim (Bool-cases (bytes_eq row.id id)) [
    | inl e ↦
        let same : row.id ≡ id = bytes_eq→≡ row.id id e in
        in_archive tid (ap parse_int (sym same) ∙ p) (
          subst (λ i. after_archiving s tid row t database_name (archive s tid) i ≡ some row.el)
            same (archiving-writes s tid row t)
          ∙ ap some (same_el (sym same)))
    | inr n ↦ kept (deletion-keeps row.id id (after_archiving s tid row t) n ∙ k)
  ]
  kept-IsSafe t es _ (delivered c q) k = elim (Bool-cases (bytes_eq row.id id)) [
    | inl e ↦ acknowledged (
        subst (λ x. Took (send_data x acked) (es ++ send_data row.el acked ∷ deleted row.id ∷ []))
          (same_el (sym (bytes_eq→≡ row.id id e)))
          (Took-here (send_data row.el acked) es (deleted row.id ∷ [])))
    | inr n ↦ kept (deletion-keeps row.id id t n ∙ k)
  ]

  archive-IsSafe :
      (t : Store) (added : List Effect) (tid' : ℤ)
      → Handled s row added
      → t database_name (archive s tid') id ≡ some el
      → carried_out t added database_name (archive s tid') id ≡ some el
  unfolding carried_out after_archiving bytes_eq
  archive-IsSafe t _ tid' left_alone q = q
  archive-IsSafe t _ tid' (refused c reply r) q = q
  archive-IsSafe t _ tid' (malformed p) q = q
  archive-IsSafe t _ tid' (archived tid p o) q = archiving-reads s tid tid' row id el t same_el q
  archive-IsSafe t _ tid' (delivered c r) q = q

  step-IsSafe :
      (t : Store) (es added : List Effect)
      → Handled s row added
      → IsSafe s id el t es
      → IsSafe s id el (carried_out t added) (es ++ added)
  step-IsSafe t es added h (kept k) = kept-IsSafe t es added h k
  step-IsSafe t es added h (acknowledged k) =
      acknowledged (Took-append (send_data el acked) es added k)
  step-IsSafe t es added h (in_archive tid p q) = in_archive tid p (archive-IsSafe t added tid h q)
  step-IsSafe t es added h (no_number p) = no_number p

rows-IsSafe :
    (s : Setting) (rows : List Row) (r : Replay) (t : Store) (id el : Bytes)
    → All (λ (row : Row). id ≡ row.id → row.el ≡ el) rows
    → IsSafe s id el (carried_out t r.effects) r.effects
    → IsSafe s id el (carried_out t (replay_rows s rows r).effects) (replay_rows s rows r).effects
unfolding replay_rows
rows-IsSafe s [] r t id el a safe = safe
rows-IsSafe s (row ∷ rows) r t id el (a, more) safe =
    let rd = query-Round s row r in
    let r' = (query s row r).0 in
    let stepped : IsSafe s id el (carried_out t r'.effects) r'.effects =
      subst (λ es. IsSafe s id el (carried_out t es) es) (sym rd.effects)
        (subst (λ u. IsSafe s id el u (r.effects ++ rd.added))
          (sym (carried_out-append t r.effects rd.added))
          (step-IsSafe s row id el a (carried_out t r.effects) r.effects rd.added rd.handled
            safe)) in
    rows-IsSafe s rows r' t id el more stepped

rows_of_store :
    (rows : List Row) (t : Store) (id el : Bytes)
    → t database_name collection_usos_data id ≡ some el
    → All (λ (row : Row). t database_name collection_usos_data row.id ≡ some row.el) rows
    → All (λ (row : Row). id ≡ row.id → row.el ≡ el) rows
rows_of_store [] t id el k a = tt
rows_of_store (row ∷ rows) t id el k (a, more) = (
  λ e. some-injective (sym a ∙ ap (t database_name collection_usos_data) (sym e) ∙ k),
  rows_of_store rows t id el k more,
)

-- A replay of rows that stand in the database, the calls of which the database carries out: each
-- message that the collection of kept messages held is afterwards still there, or has been sent and
-- acknowledged by the client, or is in the archive of its day, unless its identifier is no number.
pub replay_rows-IsSafe :
    (s : Setting) (rows : List Row) (r : Replay) (t : Store) (id el : Bytes)
    → r.effects ≡ []
    → All (λ (row : Row). t database_name collection_usos_data row.id ≡ some row.el) rows
    → t database_name collection_usos_data id ≡ some el
    → IsSafe s id el (carried_out t (replay_rows s rows r).effects) (replay_rows s rows r).effects
unfolding carried_out
replay_rows-IsSafe s rows r t id el e a k =
    rows-IsSafe s rows r t id el (rows_of_store rows t id el k a)
      (kept (ap (λ es. carried_out t es database_name collection_usos_data id) e ∙ k))
