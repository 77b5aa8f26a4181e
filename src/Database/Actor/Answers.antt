-- ===== src/Database/Actor/Answers.antt =====
-- A write and its answer, inside the handlers.
use go_gwiot.Prelude.{
  ◌≡◌, refl, sym, ap, ◌∙◌, Bool, true, false, Option, none, some, [], ◌∷◌, ◌++◌, ok, arith,
  ok-injective, inl, inr, ◌⊎◌,
}
use mathlib.Core.Path.{subst}
use go_gwiot.Prelude.Bytes.{Bytes}
use go_gwiot.Database.Errors.{Error, Result, returned, failed}
use go_gwiot.Database.Bolt.{Bolt}
use go_gwiot.Database.Repo.{is_blank, persist_data}
use go_gwiot.Database.Fsm.{Fsm, s_wait_event, e_error}
use go_gwiot.Database.Messages.{Place, Reply, ack_persist_data, no_ack_persist_data}
use go_gwiot.Database.Storage.{Storage}
use go_gwiot.Database.Actor.{
  wait_state, Actor, DbActor, World, enter, settle, persist, keep, write, acknowledged,
}
use go_gwiot.Database.Actor.Opening.{event-after}

module _ {b : Bolt} (st : Storage b) (fsm : Fsm (Actor st.Handle)) where
  open st use {Handle, contents, error_text}

  -- The actor takes requests, has a handle, and has told nobody anything yet.
  pub record IsReady (h : Handle) (d : DbActor Handle) : Type 0 where
    pub fm : d.fm ≡ s_wait_event
    pub db : d.act.db ≡ some h
    pub behavior : d.act.behavior ≡ wait_state
    pub silent : d.act.replies ≡ []

  -- A write is acknowledged, the file holds what it made of it and the actor takes requests; or it is refused, with the text of
  -- an error, and the file holds what it held.
  pub record Answered (f : b.Tx → Result b.Tx) (ack : Reply) (no_ack : Bytes → Reply) (h : Handle)
      (d' : DbActor Handle) : Type 0 where
    pub kept : Handle
    pub db : d'.act.db ≡ some kept
    pub told :
        (d'.act.replies ≡ ack ∷ [])
          × (f (contents h) ≡ returned (contents kept))
          × (d'.fm ≡ s_wait_event)
          × (d'.act.behavior ≡ wait_state)
        ⊎ ((e : Error) × (d'.act.replies ≡ no_ack (error_text e) ∷ [])
            × (contents kept ≡ contents h))

  pub settle-failed :
      (w : World Handle) (fatal : Error → Bool) (no_ack : Bytes → Reply) (d : DbActor Handle)
      (e : Error)
      → d.fm ≡ s_wait_event
      → w.has_sender ≡ true
      → ((settle st fsm w fatal no_ack d (failed e)).act.db ≡ d.act.db)
        × ((settle st fsm w fatal no_ack d (failed e)).act.replies
            ≡ d.act.replies ++ no_ack (error_text e) ∷ [])
  unfolding settle enter
  settle-failed w fatal no_ack d e q s = rw s (
      ground (
        arith,
        event-after st fsm w e_error (record d {
          act = record d.act { replies = d.act.replies ++ no_ack (error_text e) ∷ [] };
        }),
      ))

  write-Answered :
      (w : World Handle) (fatal : Error → Bool) (no_ack : Bytes → Reply) (ack : Reply)
      (f : b.Tx → Result b.Tx) (h : Handle) (d d' : DbActor Handle)
      → IsReady h d
      → w.has_sender ≡ true
      → write st fsm w fatal no_ack ack f d ≡ ok d'
      → Answered f ack no_ack h d'
  unfolding settle
  write-Answered w fatal no_ack ack f h d d' r s e = ended (st.update h f).1 refl (rw (r.db) at e)
    where
      after-write : DbActor Handle
      after-write = keep st fsm d (st.update h f).0

      ended :
          (o : Option Error)
          → (st.update h f).1 ≡ o
          → ok
              (settle st fsm w fatal no_ack after-write (acknowledged st fsm ack (st.update h f).1))
            ≡ ok d'
          → Answered f ack no_ack h d'
      ended none q e' =
          let told : settle st fsm w fatal no_ack after-write (returned (ack ∷ [])) ≡ d' =
            ap (λ o. settle st fsm w fatal no_ack after-write (acknowledged st fsm ack o)) (sym q)
            ∙ ok-injective e' in
          subst (Answered f ack no_ack h) told (record {
            kept = (st.update h f).0;
            db = rw s refl;
            told = inl (rw (s, r.silent), st.update-commits h f q, rw s (r.fm), rw s (r.behavior));
          })
      ended (some x) q e' =
          let told : settle st fsm w fatal no_ack after-write (failed x) ≡ d' =
            ap (λ o. settle st fsm w fatal no_ack after-write (acknowledged st fsm ack o)) (sym q)
            ∙ ok-injective e' in
          let parts = settle-failed w fatal no_ack after-write x r.fm s in
          subst (Answered f ack no_ack h) told (record {
            kept = (st.update h f).0;
            db = parts.0;
            told = inr (
              x,
              parts.1 ∙ ap (λ l. l ++ no_ack (error_text x) ∷ []) r.silent,
              st.update-rolls_back h f x q,
            );
          })

  pub persist-Answered :
      (w : World Handle) (p : Place) (content : Bytes) (upd : Bool) (fatal : Error → Bool)
      (h : Handle) (d d' : DbActor Handle)
      → IsReady h d
      → w.has_sender ≡ true
      → is_blank p.id ≡ false
      → persist st fsm w p content upd fatal d ≡ ok d'
      → Answered
          (persist_data b w.fresh p.id content p.database p.collection upd)
          (ack_persist_data p)
          no_ack_persist_data
          h
          d'
  unfolding persist
  persist-Answered w p content upd fatal h d d' r s n e =
      write-Answered w fatal no_ack_persist_data (ack_persist_data p)
        (persist_data b w.fresh p.id content p.database p.collection upd) h d d' r s
        (rw (n, persist) at e)
