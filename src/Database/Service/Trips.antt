-- ===== src/Database/Service/Trips.antt =====
-- What a caller of the database service can rely on: an update or insertion, and then a read.
use go_gwiot.Prelude.{
  ◌≡◌, refl, sym, ap, ◌∙◌, Bool, true, false, none, [], ◌∷◌, ◌++◌, Outcome, ok, >>=-eq-ok,
  ok-injective, inl, inr,
}
use mathlib.Core.Path.{subst}
use go_gwiot.Prelude.Bytes.{Bytes}
use go_gwiot.Database.Errors.{request_error, Result, returned, failed, returned-injective}
use go_gwiot.Database.Bolt.{Bolt, BucketLaws, collection}
use go_gwiot.Database.Repo
use go_gwiot.Database.Repo.{is_blank}
use go_gwiot.Database.Fsm.{Fsm}
use go_gwiot.Database.Messages.{Place, get_data, close_db, ack_get_data, no_ack_get_data}
use go_gwiot.Database.Storage.{Storage}
use go_gwiot.Database.Actor.{Actor, DbActor, World, receive, wait_step, settle, is_fatal}
use go_gwiot.Database.Actor.Lifecycle.{cleared}
use go_gwiot.Database.Actor.Answers.{IsReady, settle-failed}
use go_gwiot.Database.Actor.Stores.{
  Takes, store_request, receive_store, reads_after, receive-wait_step, cleared-IsReady,
}
use go_gwiot.Database.Service
use go_gwiot.Database.Service.{persist_result, get_result, close_result, first_reply, request}
use go_gwiot.Database.Actor.Closing.{close_db_unanswered}

module _ {b : Bolt} (st : Storage b) (fsm : Fsm (Actor st.Handle)) where
  open st use {Handle, contents, error_text}

  -- What a read by an actor that takes requests returns is what the file holds.
  read-returns :
      (w : World Handle) (p : Place) (h : Handle) (d d' : DbActor Handle) (content : Bytes)
      → IsReady st fsm h d
      → w.has_sender ≡ true
      → wait_step st fsm w (get_data p) d ≡ ok d'
      → get_result (first_reply d'.act.replies) ≡ returned content
      → Repo.get_data b [] p.id p.database p.collection (contents h) ≡ returned content
  unfolding wait_step get_result settle
  read-returns w p h d d' content r s e g =
      answered (st.view h (Repo.get_data b [] p.id p.database p.collection)) refl (rw (r.db) at e)
    where
      answered :
          (v : Result Bytes)
          → st.view h (Repo.get_data b [] p.id p.database p.collection) ≡ v
          → (elim v [
            | failed x ↦ ok (settle st fsm w is_fatal no_ack_get_data d (failed x))
            | returned c ↦
                ok (settle st fsm w is_fatal no_ack_get_data d (returned (ack_get_data c ∷ [])))
          ])
            ≡ ok d'
          → Repo.get_data b [] p.id p.database p.collection (contents h) ≡ returned content
      answered (failed x) q e' =
          let told : d'.act.replies ≡ no_ack_get_data (error_text x) ∷ [] =
            ap (λ (y : DbActor Handle). y.act.replies) (sym (ok-injective e'))
            ∙ (settle-failed st fsm w is_fatal no_ack_get_data d x r.fm s).1
            ∙ ap (λ l. l ++ no_ack_get_data (error_text x) ∷ []) r.silent in
          absurd (let no = sym (ap (λ l. get_result (first_reply l)) told) ∙ g in cc)
      answered (returned c) q e' =
          let told : d'.act.replies ≡ ack_get_data c ∷ [] =
            ap (λ (y : DbActor Handle). y.act.replies) (sym (ok-injective e'))
            ∙ rw (s, r.silent) refl in
          st.view-reads h (Repo.get_data b [] p.id p.database p.collection) c q
          ∙ sym (ap (λ l. get_result (first_reply l)) told)
          ∙ g

  -- `Update` and `Insert`
  abbrev pub store_call :
      Bool → World Handle → Place → Bytes → DbActor Handle → Outcome (DbActor Handle × Result Bytes)
  store_call true = Service.update st fsm
  store_call false = Service.insert st fsm

  store_call-receive :
      (upd : Bool) (w : World Handle) (p : Place) (content : Bytes) (d : DbActor Handle)
      → store_call upd w p content d
        ≡ request st fsm w (store_request st fsm upd p content) persist_result d
  unfolding Service.update Service.insert
  store_call-receive true w p content d = refl
  store_call-receive false w p content d = refl

  get-returns :
      (w : World Handle) (p : Place) (h : Handle) (d d' : DbActor Handle) (found : Bytes)
      → Takes st fsm h d
      → w.has_sender ≡ true
      → Service.get st fsm w p d ≡ ok (d', returned found)
      → Repo.get_data b [] p.id p.database p.collection (contents h) ≡ returned found
  unfolding Service.get
  get-returns w p h d d' found t s e =
      let (d1, run, e1) = >>=-eq-ok (receive st fsm w (get_data p) d) _ e in
      let pair = ok-injective e1 in
      let same : d1 ≡ d' = ap (λ (x : DbActor Handle × Result Bytes). x.0) pair in
      read-returns w p h (cleared st fsm d) d1 found (cleared-IsReady st fsm t) s
        (receive-wait_step st fsm w (get_data p) h d d1 t run)
        (ap (λ (x : DbActor Handle × Result Bytes). x.1) pair)

module _ {b : Bolt} (st : Storage b) (fsm : Fsm (Actor st.Handle)) (laws : BucketLaws b) where
  open st use {Handle, contents, error_text}

  -- A caller whose insertion or update, under an id, of an actor that takes requests returns no error
  -- is given that id; an insertion has met no record under it; and a following read under any id, by
  -- the same actor, that returns no error returns the bytes that were sent if it is the same record,
  -- and otherwise what the file held there before.
  pub store_call-get :
      (w w' : World Handle) (p p' : Place) (content found id : Bytes) (upd : Bool) (h : Handle)
      (d d' d'' : DbActor Handle)
      → Takes st fsm h d
      → w.has_sender ≡ true
      → w'.has_sender ≡ true
      → is_blank p.id ≡ false
      → is_blank p'.id ≡ false
      → store_call st fsm upd w p content d ≡ ok (d', returned id)
      → Service.get st fsm w' p' d' ≡ ok (d'', returned found)
      → (id ≡ p.id)
        × (reads_after st fsm p content p'.database p'.collection p'.id h ≡ returned found)
        × (upd ≡ false → b.get (contents h) (collection p.database p.collection) p.id ≡ none)
  unfolding persist_result
  store_call-get w w' p p' content found id upd h d d' d'' t s s' n n' e g =
      let (d1, run, e1) =
        >>=-eq-ok (receive st fsm w (store_request st fsm upd p content) d) _
          (sym (store_call-receive st fsm upd w p content d) ∙ e) in
      let pair = ok-injective e1 in
      let same : d1 ≡ d' = ap (λ (x : DbActor Handle × Result Bytes). x.0) pair in
      let told : persist_result (first_reply d1.act.replies) ≡ returned id =
        ap (λ (x : DbActor Handle × Result Bytes). x.1) pair in
      let (kept, db, answer) = receive_store st fsm laws w p content upd h d d1 t s n run in
      elim answer [
        | inl (r, reads, free, takes) ↦ (
          returned-injective (sym told ∙ ap (λ l. persist_result (first_reply l)) r),
          sym (reads p'.database p'.collection p'.id n')
              ∙ get-returns st fsm w' p' kept d' d'' found (subst (Takes st fsm kept) same takes) s'
                  g,
          free,
        )
        | inr (x, r, k) ↦
            absurd (let no = sym (ap (λ l. persist_result (first_reply l)) r) ∙ told in cc)
      ]

module _ {b : Bolt} (st : Storage b) (fsm : Fsm (Actor st.Handle)) where
  open st use {Handle}

  -- The `Close` of the service never succeeds, whatever state the actor is in, even though an actor
  -- that is open does close: it waits in vain for an answer.
  pub close_database-fails :
      (w : World Handle) (d d' : DbActor Handle) (r : Result (Unit {0}))
      → Service.close_database st fsm w d ≡ ok (d', r)
      → r ≡ failed request_error
  unfolding Service.close_database close_result
  close_database-fails w d d' r e =
      let (d1, run, e1) = >>=-eq-ok (receive st fsm w close_db d) _ e in
      sym (ap (λ (x : DbActor Handle × Result (Unit {0})). x.1) (ok-injective e1))
      ∙ ap (λ l. close_result (first_reply l)) (close_db_unanswered st fsm w d d1 run)
