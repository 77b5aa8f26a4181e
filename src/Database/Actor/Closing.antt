-- ===== src/Database/Actor/Closing.antt =====
-- The request to close the database.
use go_gwiot.Prelude.{◌≡◌, sym, ap, ◌∙◌, Option, none, some, [], ok, panic, arith, ok-injective}
use go_gwiot.Database.Bolt.{Bolt}
use go_gwiot.Database.Actor.Lifecycle.{cleared}
use go_gwiot.Database.Fsm.{Fsm, Event, e_closed}
use go_gwiot.Database.Messages.{close_db}
use go_gwiot.Database.Storage.{Storage}
use go_gwiot.Database.Actor.{
  Behavior, close_state, wait_state, Actor, DbActor, World, enter, wait_step, close_step, receive,
  event, keep,
}
use go_gwiot.Database.Actor.Opening.{event-after}

module _ {b : Bolt} (st : Storage b) (fsm : Fsm (Actor st.Handle)) where
  open st use {Handle}

  event-replies :
      (w : World Handle) (ev : Event) (d : DbActor Handle)
      → (event st fsm w ev d).act.replies ≡ d.act.replies
  unfolding enter
  event-replies w ev d = ground (arith, event-after st fsm w ev d)

  -- `MsgCloseDB` is answered in neither state, so that the `Close` of the service, which waits for a
  -- `MsgClosedDB`, cannot succeed.
  pub close_db_unanswered :
      (w : World Handle) (d d' : DbActor Handle)
      → receive st fsm w close_db d ≡ ok d'
      → d'.act.replies ≡ []
  unfolding receive wait_step close_step
  close_db_unanswered w d d' e = dispatched d.act.behavior e
    where
      closed :
          (o : Option Handle)
          → (elim o [
            | none ↦ panic
            | some h ↦ ok (event st fsm w e_closed (keep st fsm (cleared st fsm d) (st.close h)))
          ])
            ≡ ok d'
          → d'.act.replies ≡ []
      closed none e = absurd cc
      closed (some h) e =
          ap (λ (x : DbActor Handle). x.act.replies) (sym (ok-injective e))
          ∙ event-replies w e_closed (keep st fsm (cleared st fsm d) (st.close h))

      dispatched :
          (bh : Behavior)
          → (elim bh [
            | close_state ↦ ok (close_step st fsm w close_db (cleared st fsm d))
            | wait_state ↦ wait_step st fsm w close_db (cleared st fsm d)
          ])
            ≡ ok d'
          → d'.act.replies ≡ []
      dispatched close_state e = ap (λ (x : DbActor Handle). x.act.replies) (sym (ok-injective e))
      dispatched wait_state e = closed d.act.db e
