-- ===== src/Database/Actor/Stores.antt =====
-- What the sender of an insertion or an update is told, and what the file then holds.
use go_gwiot.Prelude.{
  ◌≡◌, refl, Bool, true, false, none, some, [], ◌∷◌, ok, if◌then◌else◌, inl, inr, ◌⊎◌,
}
use mathlib.Core.Path.{subst}
use go_gwiot.Prelude.Bytes.{Bytes}
use go_gwiot.Database.Errors.{Error, Result, returned}
use go_gwiot.Prelude.Bytes.{bytes_eq}
use go_gwiot.Prelude.{◌&&◌}
use go_gwiot.Database.Bolt.{Bolt, BucketLaws, path_eq, collection}
use go_gwiot.Database.Repo
use go_gwiot.Database.Repo.Records.{persist_get}
use go_gwiot.Database.Actor.Lifecycle.{cleared}
use go_gwiot.Database.Repo.{is_blank, persist_data, remove_data}
use go_gwiot.Database.Fsm.{Fsm, s_wait_event}
use go_gwiot.Database.Messages.{
  Place, Msg, insert_data, update_data, ack_persist_data, no_ack_persist_data,
}
use go_gwiot.Database.Storage.{Storage}
use go_gwiot.Database.Actor.{
  close_state, wait_state, Actor, DbActor, World, wait_step, close_step, receive, is_fatal,
  is_fatal_update,
}
use go_gwiot.Database.Actor.Answers.{IsReady, Answered, persist-Answered}

module _ {b : Bolt} (st : Storage b) (fsm : Fsm (Actor st.Handle)) where
  open st use {Handle, contents, error_text}

  -- The actor takes requests: its machine, its behaviour and its handle.
  pub record Takes (h : Handle) (d : DbActor Handle) : Type 0 where
    pub fm : d.fm ≡ s_wait_event
    pub db : d.act.db ≡ some h
    pub behavior : d.act.behavior ≡ wait_state

  -- `MsgUpdateData` and `MsgInsertData`.
  abbrev pub store_request : Bool → Place → Bytes → Msg
  store_request true p content = update_data p content
  store_request false p content = insert_data p content

  pub cleared-IsReady :
      {h : Handle} {d : DbActor Handle} → Takes h d → IsReady st fsm h (cleared st fsm d)
  cleared-IsReady t = record { fm = t.fm; db = t.db; behavior = t.behavior; silent = refl }

  pub receive-wait_step :
      (w : World Handle) (m : Msg) (h : Handle) (d d' : DbActor Handle)
      → Takes h d
      → receive st fsm w m d ≡ ok d'
      → wait_step st fsm w m (cleared st fsm d) ≡ ok d'
  unfolding receive
  receive-wait_step w m h d d' t e =
      subst
        (λ bh.
          (elim bh [
            | close_state ↦ ok (close_step st fsm w m (cleared st fsm d))
            | wait_state ↦ wait_step st fsm w m (cleared st fsm d)
          ])
          ≡ ok d')
        t.behavior e

  stored-Answered :
      (w : World Handle) (p : Place) (content : Bytes) (upd : Bool) (h : Handle)
      (d d' : DbActor Handle)
      → IsReady st fsm h d
      → w.has_sender ≡ true
      → is_blank p.id ≡ false
      → wait_step st fsm w (store_request upd p content) d ≡ ok d'
      → Answered st fsm
          (persist_data b w.fresh p.id content p.database p.collection upd)
          (ack_persist_data p)
          no_ack_persist_data
          h
          d'
  unfolding wait_step
  stored-Answered w p content true h d d' r s n e =
      persist-Answered st fsm w p content true is_fatal_update h d d' r s n e
  stored-Answered w p content false h d d' r s n e =
      persist-Answered st fsm w p content false is_fatal h d d' r s n e

  -- What a record reads as after a write that was acknowledged, and in the file as it was.
  abbrev pub reads_after : Place → Bytes → Bytes → Bytes → Bytes → Handle → Result Bytes
  reads_after p content db coll id h =
      if path_eq (collection p.database p.collection) (collection db coll) && bytes_eq p.id id
      then returned content
      else Repo.get_data b [] id db coll (contents h)

module _ {b : Bolt} (st : Storage b) (fsm : Fsm (Actor st.Handle)) (laws : BucketLaws b) where
  open st use {Handle, contents, error_text}

  -- An actor that takes requests answers an insertion or an update with an id, sent by somebody, once:
  -- with the acknowledgement, and then a read of that record finds the bytes that were sent, a read of
  -- any other record what it found before, an insertion has met no record under the id, and the actor
  -- goes on taking requests; or with the text of an error, and then the file is as it was. The
  -- handle stays.
  pub receive_store :
      (w : World Handle) (p : Place) (content : Bytes) (upd : Bool) (h : Handle)
      (d d' : DbActor Handle)
      → Takes st fsm h d
      → w.has_sender ≡ true
      → is_blank p.id ≡ false
      → receive st fsm w (store_request st fsm upd p content) d ≡ ok d'
      → (kept : Handle) × (d'.act.db ≡ some kept)
        × ((d'.act.replies ≡ ack_persist_data p ∷ [])
              × ((db coll id : Bytes)
                  → is_blank id ≡ false
                  → Repo.get_data b [] id db coll (contents kept)
                    ≡ reads_after st fsm p content db coll id h)
              × (upd ≡ false → b.get (contents h) (collection p.database p.collection) p.id ≡ none)
              × Takes st fsm kept d'
            ⊎ ((e : Error) × (d'.act.replies ≡ no_ack_persist_data (error_text e) ∷ [])
                × (contents kept ≡ contents h)))
  receive_store w p content upd h d d' t s n e =
      let a =
        stored-Answered st fsm w p content upd h (cleared st fsm d) d' (cleared-IsReady st fsm t) s
          n (receive-wait_step st fsm w (store_request st fsm upd p content) h d d' t e) in
      (a.kept, a.db, told a.kept a.db a.told)
    where
      told :
          (kept : Handle)
          → d'.act.db ≡ some kept
          → (d'.act.replies ≡ ack_persist_data p ∷ [])
              × (persist_data b w.fresh p.id content p.database p.collection upd (contents h)
                  ≡ returned (contents kept))
              × (d'.fm ≡ s_wait_event)
              × (d'.act.behavior ≡ wait_state)
            ⊎ ((e : Error) × (d'.act.replies ≡ no_ack_persist_data (error_text e) ∷ [])
                × (contents kept ≡ contents h))
          → (d'.act.replies ≡ ack_persist_data p ∷ [])
              × ((db coll id : Bytes)
                  → is_blank id ≡ false
                  → Repo.get_data b [] id db coll (contents kept)
                    ≡ reads_after st fsm p content db coll id h)
              × (upd ≡ false → b.get (contents h) (collection p.database p.collection) p.id ≡ none)
              × Takes st fsm kept d'
            ⊎ ((e : Error) × (d'.act.replies ≡ no_ack_persist_data (error_text e) ∷ [])
                × (contents kept ≡ contents h))
      told kept q (inr refused) = inr refused
      told kept q (inl (r, wrote, f, v)) = inl (
        r,
        λ db coll id n'.
            (persist_get b laws w.fresh p.id content p.database p.collection upd (contents h)
              (contents kept) db coll id n n' wrote).0,
        (persist_get b laws w.fresh p.id content p.database p.collection upd (contents h)
            (contents kept) p.database p.collection p.id n n wrote).1,
        record { fm = f; db = q; behavior = v },
      )
