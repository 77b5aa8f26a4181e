-- ===== src/Database/Actor/Waiting.antt =====
-- What a request leaves of the actor that waits for requests.
use go_gwiot.Prelude.{
  ◌≡◌, Bool, true, false, Option, none, some, List, [], ◌∷◌, Outcome, ok, panic, ◌>>=◌, >>=-eq-ok,
  ok-injective, if◌then◌else◌, arith, Bool-cases, inl, inr,
}
use mathlib.Core.Path.{subst}
use go_gwiot.Prelude.Bytes.{Bytes}
use go_gwiot.Database.Repo.{is_blank, persist_data, remove_data}
use go_gwiot.Database.Errors.{Error, Result, returned, failed}
use go_gwiot.Database.Bolt.{Bolt}
use go_gwiot.Database.Fsm.{Fsm, s_wait_event, Event, e_closed, e_error}
use go_gwiot.Database.Messages.{
  Place, Msg, stopping, flush_filesystem, open_db, close_db, error_db, insert_data, update_data,
  delete_data, get_data, search_collection, query_data, Reply, opened_db_reply, ack_persist_data,
  no_ack_persist_data, ack_delete_data, no_ack_delete_data, ack_get_data, no_ack_get_data,
}
use go_gwiot.Database.Storage.{Storage}
use go_gwiot.Database.Actor.{
  wait_state, Actor, DbActor, World, enter, event, settle, persist, wait_step, is_fatal,
  is_fatal_update, on_act, respond, with_db, keep, write, read, acknowledged, found_names,
  found_rows,
}
use go_gwiot.Database.Actor.Opening.{
  behavior_of, announcements, has_opened, opening, is_held, event-after,
}

module _ {b : Bolt} (st : Storage b) (fsm : Fsm (Actor st.Handle)) where
  open st use {Handle}

  -- While the actor waits for requests: its handle is there, and nothing is sent to itself yet.
  pub record IsWaiting (d : DbActor Handle) : Type 0 where
    pub fm : d.fm ≡ s_wait_event
    pub behavior : d.act.behavior ≡ wait_state
    pub db : is_held d.act.db ≡ true
    pub nothing_sent : d.act.self_sent ≡ []

  -- What a request leaves: an actor that waits, or one that has closed or restarts.
  pub record Settled (d : DbActor Handle) : Type 0 where
    pub behaves : d.act.behavior ≡ behavior_of d.fm
    pub not_opening : opening d.fm ≡ 0
    pub not_announced : announcements d.act.self_sent ≡ 0
    pub not_opened : has_opened d.act.self_sent ≡ false
    pub held : d.fm ≡ s_wait_event → is_held d.act.db ≡ true

  IsWaiting-Settled : {d : DbActor Handle} → IsWaiting d → Settled d
  IsWaiting-Settled h = ground arith

  event-Settled :
      (w : World Handle) (ev : Event) (d : DbActor Handle)
      → IsWaiting d
      → Settled (event st fsm w ev d)
  unfolding enter
  event-Settled w ev d h = ground (arith, event-after st fsm w ev d)

  respond-IsWaiting :
      (w : World Handle) (r : Reply) (d : DbActor Handle)
      → IsWaiting d
      → IsWaiting (on_act st fsm (respond st fsm w r) d)
  respond-IsWaiting w r d h = elim (Bool-cases w.has_sender) [
    | inl e ↦
        rw e (record { fm = h.fm; behavior = h.behavior; db = h.db; nothing_sent = h.nothing_sent })
    | inr e ↦ rw e h
  ]

  settle-Settled :
      (w : World Handle) (fatal : Error → Bool) (no_ack : Bytes → Reply) (d : DbActor Handle)
      (r : Result (List Reply))
      → IsWaiting d
      → Settled (settle st fsm w fatal no_ack d r)
  unfolding settle
  settle-Settled w fatal no_ack d (returned rs) h = elim (Bool-cases w.has_sender) [
    | inl e ↦ rw e (
        IsWaiting-Settled
          (record { fm = h.fm; behavior = h.behavior; db = h.db; nothing_sent = h.nothing_sent }))
    | inr e ↦ rw e (IsWaiting-Settled h)
  ]
  settle-Settled w fatal no_ack d (failed e) h = elim (Bool-cases (fatal e)) [
    | inl f ↦ rw f (
        event-Settled w e_error (on_act st fsm (respond st fsm w (no_ack (st.error_text e))) d)
          (respond-IsWaiting w (no_ack (st.error_text e)) d h))
    | inr f ↦ rw f (IsWaiting-Settled (respond-IsWaiting w (no_ack (st.error_text e)) d h))
  ]

  with_db-ok :
      (d d' : DbActor Handle) (f : Handle → Outcome (DbActor Handle))
      → with_db st fsm d f ≡ ok d'
      → (h : Handle) × (f h ≡ ok d')
  with_db-ok d d' f e = opened-ok d.act.db e
    where
      opened-ok :
          (o : Option Handle)
          → (elim o [ none ↦ panic | some h ↦ f h ]) ≡ ok d'
          → (h : Handle) × (f h ≡ ok d')
      opened-ok none e = absurd cc
      opened-ok (some h) e = (h, e)

  keep-IsWaiting : (d : DbActor Handle) (h : Handle) → IsWaiting d → IsWaiting (keep st fsm d h)
  keep-IsWaiting d h w = ground arith

  write-Settled :
      (w : World Handle) (fatal : Error → Bool) (no_ack : Bytes → Reply) (ack : Reply) (f : _)
      (d d' : DbActor Handle)
      → IsWaiting d
      → write st fsm w fatal no_ack ack f d ≡ ok d'
      → Settled d'
  write-Settled w fatal no_ack ack f d d' h e =
      let (hd, e') = with_db-ok d d' _ e in
      subst Settled (ok-injective e') (
        settle-Settled w fatal no_ack (keep st fsm d (st.update hd f).0)
          (acknowledged st fsm ack (st.update hd f).1) (keep-IsWaiting d (st.update hd f).0 h))

  read-Settled :
      {A : Type 0} (w : World Handle) (answer : A → Outcome (List Reply)) (f : b.Tx → Result A)
      (d d' : DbActor Handle)
      → IsWaiting d
      → read st fsm w answer f d ≡ ok d'
      → Settled d'
  read-Settled {A} w answer f d d' h e =
      let (hd, e') = with_db-ok d d' _ e in viewed-Settled (st.view hd f) e'
    where
      viewed-Settled :
          (r : Result A)
          → (elim r [
            | failed e ↦ ok (settle st fsm w is_fatal no_ack_get_data d (failed e))
            | returned a ↦
                answer a >>= λ rs. ok (settle st fsm w is_fatal no_ack_get_data d (returned rs))
          ])
            ≡ ok d'
          → Settled d'
      viewed-Settled (failed x) e =
          subst Settled (ok-injective e) (settle-Settled w is_fatal no_ack_get_data d (failed x) h)
      viewed-Settled (returned a) e =
          let (rs, _, e') = >>=-eq-ok (answer a) _ e in
          subst Settled (ok-injective e')
            (settle-Settled w is_fatal no_ack_get_data d (returned rs) h)

  persist-Settled :
      (w : World Handle) (p : Place) (content : Bytes) (upd : Bool) (fatal : Error → Bool)
      (d d' : DbActor Handle)
      → IsWaiting d
      → persist st fsm w p content upd fatal d ≡ ok d'
      → Settled d'
  unfolding persist
  persist-Settled w p content upd fatal d d' h e =
      named-Settled (if is_blank p.id then w.fresh else returned p.id) e
    where
      named-Settled :
          (r : Result Bytes)
          → (elim r [
            | failed e ↦ ok (settle st fsm w fatal no_ack_persist_data d (failed e))
            | returned id ↦
                write st fsm w fatal no_ack_persist_data
                  (ack_persist_data (record p { id = id }))
                  (persist_data b w.fresh id content p.database p.collection upd)
                  d
          ])
            ≡ ok d'
          → Settled d'
      named-Settled (failed x) e =
          subst Settled (ok-injective e) (settle-Settled w fatal no_ack_persist_data d (failed x) h)
      named-Settled (returned id) e =
          write-Settled w fatal no_ack_persist_data (ack_persist_data (record p { id = id }))
            (persist_data b w.fresh id content p.database p.collection upd) d d' h e

  closed-Settled :
      (w : World Handle) (d d' : DbActor Handle)
      → IsWaiting d
      → with_db st fsm d (λ h. ok (event st fsm w e_closed (keep st fsm d (st.close h)))) ≡ ok d'
      → Settled d'
  closed-Settled w d d' h e =
      let (hd, e') = with_db-ok d d' _ e in
      subst Settled (ok-injective e')
        (event-Settled w e_closed (keep st fsm d (st.close hd)) (keep-IsWaiting d (st.close hd) h))

  open_db-Settled :
      (w : World Handle) (d d' : DbActor Handle)
      → IsWaiting d
      → ok (on_act st fsm (respond st fsm w opened_db_reply) d) ≡ ok d'
      → Settled d'
  open_db-Settled w d d' h e =
      subst Settled (ok-injective e) (IsWaiting-Settled (respond-IsWaiting w opened_db_reply d h))

  pub wait_step-Settled :
      (w : World Handle) (m : Msg) (d d' : DbActor Handle)
      → IsWaiting d
      → wait_step st fsm w m d ≡ ok d'
      → Settled d'
  unfolding wait_step
  wait_step-Settled w flush_filesystem d d' h e =
      subst Settled (ok-injective e) (IsWaiting-Settled h)
  wait_step-Settled w stopping d d' h e = closed-Settled w d d' h e
  wait_step-Settled w open_db d d' h e = open_db-Settled w d d' h e
  wait_step-Settled w error_db d d' h e =
      subst Settled (ok-injective e) (event-Settled w e_error d h)
  wait_step-Settled w (insert_data p content) d d' h e =
      persist-Settled w p content false is_fatal d d' h e
  wait_step-Settled w (update_data p content) d d' h e =
      persist-Settled w p content true is_fatal_update d d' h e
  wait_step-Settled w (delete_data p) d d' h e =
      write-Settled w is_fatal no_ack_delete_data (ack_delete_data p)
        (remove_data b p.id p.database p.collection) d d' h e
  wait_step-Settled w (get_data p) d d' h e =
      read-Settled w (λ v. ok (ack_get_data v ∷ [])) _ d d' h e
  wait_step-Settled w (search_collection db q r) d d' h e =
      read-Settled w (found_names st fsm db) _ d d' h e
  wait_step-Settled w (query_data db coll q r) d d' h e =
      read-Settled w (found_rows st fsm w.ack_first db coll) _ d d' h e
  wait_step-Settled w close_db d d' h e = closed-Settled w d d' h e
  wait_step-Settled w _ d d' h e = subst Settled (ok-injective e) (IsWaiting-Settled h)
