-- ===== src/Database/Service/Query.antt =====
-- `Query` of internal/database/service.go: the child actor that takes the rows, calls the closure for
-- each, and tells the caller when the query is over.
use go_gwiot.Prelude.{
  ◌≡◌, ◌≢◌, refl, sym, ap, ◌∙◌, Bool, true, false, Option, none, some, List, [], ◌∷◌, filter,
  length, ℕ, zero, suc, ◌<◌, ◌≤◌, arith, Bool-cases, ok, ◌>>=◌, ok-injective, some-injective, ◌++◌,
  map, if◌then◌else◌, ◌⊎◌, inl, inr,
}
use mathlib.Core.Path.{subst}
use mathlib.Core.List.{append_assoc, append-nil}
use go_gwiot.Prelude.Bytes.{Bytes}
use go_gwiot.Database.Errors.{
  error_new, request_error, Result, returned, failed, returned-injective,
}
use go_gwiot.Database.Bolt.{Bolt, CursorLaws, database, collection}
use go_gwiot.Database.Repo
use go_gwiot.Database.Repo.{QueryType, prefixed, stopped, timed_out}
use go_gwiot.Database.Repo.Query.{row, received, received-first, query_data-received}
use go_gwiot.Database.Fsm.{Fsm}
use go_gwiot.Database.Storage.{Storage}
use go_gwiot.Database.Actor.{
  Actor, DbActor, World, receive, wait_step, settle, is_fatal, found_rows, row_replies,
}
use go_gwiot.Database.Actor.Lifecycle.{cleared}
use go_gwiot.Database.Actor.Answers.{IsReady, settle-failed}
use go_gwiot.Database.Actor.Stores.{Takes, receive-wait_step, cleared-IsReady}
use go_gwiot.Database.Messages.{query_data, Reply, ack_get_data, no_ack_get_data, query_response}

-- What the future of the caller gets first: `stop`, or an error.
pub data Told : Type 0 where
  stop : Told
  error_told : Bytes → Told

module _ {ℓ} {S : Type ℓ} (query : Bytes → Bytes → S → S × Bool) where
  -- One message of the database actor to the child: the state that the closure works on, and what the
  -- caller is told.
  unfoldable pub child_step : S → Reply → S × Option Told
  child_step s (query_response p content) =
      let r = query p.id content s in (r.0, if r.1 then none else some stop)
  child_step s (ack_get_data content) = (s, some stop)
  child_step s (no_ack_get_data text) = (s, some (error_told text))
  child_step s _ = (s, none)

  -- Once the caller is told, it poisons the child, which still handles what has come before that:
  -- `left` messages.
  unfoldable pub child_left : ℕ → S → List Reply → S
  unfolding child_step
  child_left left s [] = s
  child_left zero s (m ∷ ms) = s
  child_left (suc left) s (m ∷ ms) = child_left left (child_step s m).0 ms

  -- The messages that come in time, up to the end of the child, and what the caller is told first.
  unfoldable pub child_run : ℕ → S → List Reply → S × Option Told
  unfolding child_left
  child_run left s [] = (s, none)
  child_run left s (m ∷ ms) = elim (child_step s m).1 [
    | none ↦ child_run left (child_step s m).0 ms
    | some t ↦ (child_left left (child_step s m).0 ms, some t)
  ]

  -- The result of `Query`: a timeout, if the caller is told nothing in time.
  unfoldable pub query_result : Option Told → Result (Unit {0})
  query_result none = failed request_error
  query_result (some stop) = returned tt
  query_result (some (error_told text)) = failed (error_new text)

  unfoldable pub query_rows : ℕ → S → List Reply → S × Result (Unit {0})
  unfolding child_run query_result
  query_rows left s ms = let (s', told) = child_run left s ms in (s', query_result told)

  -- The closure called for each row, in order.
  abbrev pub called_for : S → List QueryType → S
  called_for s [] = s
  called_for s (r ∷ rs) = called_for (query r.id r.content s).0 rs

  -- Whether the closure asks to end in one of these calls.
  abbrev pub is_refused : S → List QueryType → Bool
  is_refused s [] = false
  is_refused s (r ∷ rs) =
      let rest = is_refused (query r.id r.content s).0 rs in
      if (query r.id r.content s).1 then rest else true

  child_left-rows :
      (early : Bool) (db coll : Bytes) (rows : List QueryType) (left : ℕ) (s : S)
      → (done : List QueryType) × (lost : List QueryType) × (rows ≡ done ++ lost)
        × (child_left left s (row_replies early db coll rows) ≡ called_for s done)
  unfolding child_left
  child_left-rows early db coll [] zero s = ([], [], refl, refl)
  child_left-rows early db coll [] (suc left) s = ([], [], refl, refl)
  child_left-rows true db coll (q ∷ []) zero s = ([], q ∷ [], refl, refl)
  child_left-rows true db coll (q ∷ []) (suc zero) s = ([], q ∷ [], refl, refl)
  child_left-rows true db coll (q ∷ []) (suc (suc left)) s = (q ∷ [], [], refl, refl)
  child_left-rows false db coll (q ∷ []) zero s = ([], q ∷ [], refl, refl)
  child_left-rows false db coll (q ∷ []) (suc zero) s = (q ∷ [], [], refl, refl)
  child_left-rows false db coll (q ∷ []) (suc (suc left)) s = (q ∷ [], [], refl, refl)
  child_left-rows early db coll (q ∷ r ∷ rows) zero s = ([], q ∷ r ∷ rows, refl, refl)
  child_left-rows early db coll (q ∷ r ∷ rows) (suc left) s =
      let (done, lost, p, e) =
        child_left-rows early db coll (r ∷ rows) left (query q.id q.content s).0 in
      (q ∷ done, lost, ap (λ l. q ∷ l) p, e)

  child_left-ack :
      (left : ℕ) (s : S) (content : Bytes) → child_left left s (ack_get_data content ∷ []) ≡ s
  unfolding child_left
  child_left-ack zero s content = refl
  child_left-ack (suc left) s content = refl

  -- The rows that may miss their turn without a refusal.
  abbrev pub spare : Bool → ℕ
  spare true = 1
  spare false = 0

  -- The closure is called for the first rows, and misses more than the last only after a refusal.
  child_run-rows :
      (early : Bool) (db coll : Bytes) (rows : List QueryType) (left : ℕ) (s : S)
      → (done : List QueryType) × (lost : List QueryType) × (rows ≡ done ++ lost)
        × ((child_run left s (row_replies early db coll rows)).0 ≡ called_for s done)
        × ((is_refused s done ≡ true) ⊎ (length lost ≤ spare early))
  unfolding child_run
  child_run-rows early db coll [] left s = ([], [], refl, refl, inr (omega arith))
  child_run-rows true db coll (q ∷ []) zero s = ([], q ∷ [], refl, refl, inr (omega arith))
  child_run-rows true db coll (q ∷ []) (suc left) s = (q ∷ [], [], refl, refl, inr (omega arith))
  child_run-rows false db coll (q ∷ []) left s = elim (Bool-cases (query q.id q.content s).1) [
    | inl e ↦ (q ∷ [], [], refl, rw (child_run, e) refl, inr (omega arith))
    | inr e ↦ (
      q ∷ [],
      [],
      refl,
      rw (child_run, e) (child_left-ack left (query q.id q.content s).0 []),
      inr (omega arith),
    )
  ]
  child_run-rows early db coll (q ∷ r ∷ rows) left s =
      elim (Bool-cases (query q.id q.content s).1) [
        | inl e ↦
            let (done, lost, p, x, y) =
              child_run-rows early db coll (r ∷ rows) left (query q.id q.content s).0 in
            (
              q ∷ done,
              lost,
              ap (λ l. q ∷ l) p,
              rw (child_run, e) x,
              elim y [ inl z ↦ inl (rw e z) | inr z ↦ inr z ],
            )
        | inr e ↦
            let (done, lost, p, x) =
              child_left-rows early db coll (r ∷ rows) left (query q.id q.content s).0 in
            (q ∷ done, lost, ap (λ l. q ∷ l) p, rw (child_run, e) x, inl (rw e refl))
      ]

refused_query :
    {S : Type 0} (query : Bytes → Bytes → S → S × Bool) (left : ℕ) (s s' : S) (text : Bytes)
    → query_rows query left s (no_ack_get_data text ∷ []) ≢ (s', returned tt)
unfolding query_rows query_result child_run child_step
refused_query query left s s' text e =
    let e' : failed (error_new text) ≡ returned tt = ap (λ x. x.1) e in cc

-- The records of a collection whose keys have a prefix, in the order of the keys.
abbrev pub listed : {b : Bolt} → CursorLaws b → Bytes → Bytes → Bytes → b.Tx → List QueryType
listed laws db coll prefix_id t =
    map row (filter (prefixed prefix_id) (laws.listing t (collection db coll)))

-- What `Query` has called the closure for when it returns no error.
abbrev pub Listed {ℓ} :
    {S : Type ℓ} {H : Type 0}
    → (Bytes → Bytes → S → S × Bool)
    → S
    → S
    → World H
    → List QueryType
    → Type ℓ
Listed query s s' w rows =
    (done : List QueryType) × (lost : List QueryType) × (rows ≡ done ++ lost)
    × (s' ≡ called_for query s done)
    × ((is_refused query s done ≡ true)
        ⊎ ((i : ℕ) × (w.turns i ≡ stopped))
        ⊎ (length lost ≤ spare query w.ack_first))

module _ {b : Bolt} (st : Storage b) (fsm : Fsm (Actor st.Handle)) (laws : CursorLaws b) where
  open b use {has_bucket}
  open st use {Handle, contents, error_text}

  rows-Listed :
      {S : Type 0} (query : Bytes → Bytes → S → S × Bool) (left : ℕ) (s s' : S) (w : World Handle)
      (db coll : Bytes) (rows lost all : List QueryType)
      → all ≡ rows ++ lost
      → (lost ≡ []) ⊎ ((i : ℕ) × (w.turns i ≡ stopped))
      → query_rows query left s (row_replies w.ack_first db coll rows) ≡ (s', returned tt)
      → Listed query s s' w all
  unfolding query_rows
  rows-Listed {S} query left s s' w db coll rows lost all p c g =
      let (done, more, q, e, why) = child_run-rows query w.ack_first db coll rows left s in
      (
        done,
        more ++ lost,
        p ∙ ap (λ l. l ++ lost) q ∙ append_assoc done more lost,
        ap (λ (x : S × Result (Unit {0})). x.0) (sym g) ∙ e,
        elim why [
          | inl r ↦ inl r
          | inr few ↦ elim c [
            | inl whole ↦ inr (
                inr (
                  subst (λ l. length l ≤ spare query w.ack_first)
                    (sym (ap (λ l. more ++ l) whole ∙ append-nil more)) few))
            | inr ended ↦ inr (inl ended)
          ]
        ],
      )

  read-rows :
      {S : Type 0} (query : Bytes → Bytes → S → S × Bool) (left : ℕ) (s s' : S) (w : World Handle)
      (db coll prefix_id : Bytes) (h : Handle) (d d' : DbActor Handle)
      (found all lost : List QueryType)
      → IsReady st fsm h d
      → w.has_sender ≡ true
      → Repo.query_data b w.fuel w.turns db coll prefix_id false (contents h) ≡ some found
      → all ≡ found ++ lost
      → (lost ≡ []) ⊎ ((i : ℕ) × (w.turns i ≡ stopped))
      → wait_step st fsm w (query_data db coll prefix_id false) d ≡ ok d'
      → query_rows query left s d'.act.replies ≡ (s', returned tt)
      → Listed query s s' w all
  unfolding wait_step settle
  read-rows {S} query left s s' w db coll prefix_id h d d' found all lost r sender listing p c e g =
      answered
        (st.view h (λ t. returned (Repo.query_data b w.fuel w.turns db coll prefix_id false t)))
        refl (rw (r.db) at e)
    where
      answered :
          (v : Result (Option (List QueryType)))
          → st.view h (λ t. returned (Repo.query_data b w.fuel w.turns db coll prefix_id false t))
            ≡ v
          → (elim v [
            | failed x ↦ ok (settle st fsm w is_fatal no_ack_get_data d (failed x))
            | returned a ↦ (do
              rs ← found_rows st fsm w.ack_first db coll a
              ok (settle st fsm w is_fatal no_ack_get_data d (returned rs)))
          ])
            ≡ ok d'
          → Listed query s s' w all
      answered (failed x) q e' =
          let told : d'.act.replies ≡ no_ack_get_data (error_text x) ∷ [] =
            ap (λ (y : DbActor Handle). y.act.replies) (sym (ok-injective e'))
            ∙ (settle-failed st fsm w is_fatal no_ack_get_data d x r.fm sender).1
            ∙ ap (λ l. l ++ no_ack_get_data (error_text x) ∷ []) r.silent in
          absurd (
            refused_query query left s s' (error_text x)
              (sym (ap (query_rows query left s) told) ∙ g))
      answered (returned none) q e' = absurd cc
      answered (returned (some rows)) q e' =
          let told : d'.act.replies ≡ row_replies w.ack_first db coll rows =
            ap (λ (y : DbActor Handle). y.act.replies) (sym (ok-injective e'))
            ∙ rw (sender, r.silent) refl in
          let held : some rows ≡ some found =
            sym (
              returned-injective (
                st.view-reads h
                  (λ t. returned (Repo.query_data b w.fuel w.turns db coll prefix_id false t))
                  (some rows) q))
            ∙ listing in
          rows-Listed query left s s' w db coll rows lost all
            (p ∙ ap (λ l. l ++ lost) (sym (some-injective held))) c
            (sym (ap (query_rows query left s) told) ∙ g)

  -- A `Query` without `reverse` of a collection that is there, of an actor that takes requests, that
  -- returns no error, with no row's hand-over to the forwarding goroutine timed out: its closure has
  -- been called, up to the end of the child, for the first of the records whose keys have the prefix,
  -- once each and in ascending order. It has been called for all of them, unless it has refused one,
  -- or a row could not be delivered in time, so that the search was stopped, or the acknowledgement
  -- has got ahead of the last row; and that last row is then all that it may have missed.
  pub query_rows-listed :
      {S : Type 0} (query : Bytes → Bytes → S → S × Bool) (left : ℕ) (s s' : S) (w : World Handle)
      (db coll prefix_id : Bytes) (h : Handle) (d d' : DbActor Handle)
      → Takes st fsm h d
      → w.has_sender ≡ true
      → has_bucket (contents h) (database db) ≡ true
      → has_bucket (contents h) (collection db coll) ≡ true
      → length (laws.listing (contents h) (collection db coll)) < w.fuel
      → ((i : ℕ) → w.turns i ≢ timed_out)
      → receive st fsm w (query_data db coll prefix_id false) d ≡ ok d'
      → query_rows query left s d'.act.replies ≡ (s', returned tt)
      → Listed query s s' w (listed laws db coll prefix_id (contents h))
  query_rows-listed query left s s' w db coll prefix_id h d d' t sender hd hc l late e g =
      let entries = filter (prefixed prefix_id) (laws.listing (contents h) (collection db coll)) in
      let (lost, p, c) = received-first w.turns 0 entries late in
      read-rows query left s s' w db coll prefix_id h (cleared st fsm d) d'
        (received w.turns 0 entries) (listed laws db coll prefix_id (contents h)) lost
        (cleared-IsReady st fsm t) sender
        (query_data-received b laws w.fuel w.turns db coll prefix_id (contents h) hd hc l) p c
        (receive-wait_step st fsm w (query_data db coll prefix_id false) h d d' t e) g
