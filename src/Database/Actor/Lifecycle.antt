-- ===== src/Database/Actor/Lifecycle.antt =====
-- The database actor with its mailbox: what holds of its state, its machine and its handle whatever
-- messages arrive, in whatever order.
use go_gwiot.Prelude.{
  ◌≤◌, ◌+◌, ◌≡◌, ◌≢◌, refl, sym, ap, ◌∙◌, true, false, ◌||◌, none, List, [], ◌∷◌, ◌++◌, ok,
  ok-injective, arith, Bool-cases, inl, inr,
}
use mathlib.Core.Path.{subst}
use go_gwiot.Database.Bolt.{Bolt}
use go_gwiot.Database.Fsm.{Fsm, State, s_init, s_open, s_wait_event}
use go_gwiot.Database.Messages.{Msg, started, opened_db}
use go_gwiot.Database.Storage.{Storage}
use go_gwiot.Database.Actor.{
  Behavior, close_state, wait_state, Actor, DbActor, World, close_step, wait_step, receive,
}
use go_gwiot.Database.Actor.Opening.{
  behavior_of, is_announcement, announcements, count_bool, is_opened, has_opened, opening, is_held,
  Effect, close_step-Effect,
}
use go_gwiot.Database.Actor.Waiting.{Settled, wait_step-Settled}

announcements-append :
    (xs ys : List Msg) → announcements (xs ++ ys) ≡ announcements xs + announcements ys
announcements-append [] ys = omega arith
announcements-append (m ∷ xs) ys = omega (arith, announcements-append xs ys)

has_opened-append : (xs ys : List Msg) → has_opened (xs ++ ys) ≡ (has_opened xs || has_opened ys)
has_opened-append [] ys = refl
has_opened-append (m ∷ xs) ys = ground (arith, has_opened-append xs ys)

announcements_of_opened : (ms : List Msg) → has_opened ms ≡ true → 1 ≤ announcements ms
announcements_of_opened [] h = absurd cc
announcements_of_opened (opened_db ∷ ms) h = omega arith
announcements_of_opened (m ∷ ms) h = ground (arith, announcements_of_opened ms)

opening-s_open : (s : State) → 1 ≤ opening s → s ≡ s_open
opening-s_open s h = ground arith

opening_bound : (s : State) → opening s ≤ 1
opening_bound s = ground arith

pub waits : (s : State) → behavior_of s ≡ wait_state → s ≡ s_wait_event
waits s h = ground arith

closes : (s : State) → behavior_of s ≡ close_state → s ≢ s_wait_event
closes s h e = ground arith

is_announcement_of_opened : (m : Msg) → is_opened m ≡ true → is_announcement m ≡ true
is_announcement_of_opened m h = ground arith

module _ {b : Bolt} (st : Storage b) (fsm : Fsm (Actor st.Handle)) where
  open st use {Handle}

  pub record System : Type 0 where
    pub actor : DbActor Handle
    pub mailbox : List Msg

  -- One event of the system: a message arrives from outside, any but the two that only the actor sends
  -- to itself; or the actor handles the first message of its mailbox, and what it sends to itself
  -- goes behind the others.
  pub data Step (s : System) : System → Type 0 where
    arrive :
        (m : Msg)
        → is_announcement m ≡ false
        → Step s (record { actor = s.actor; mailbox = s.mailbox ++ m ∷ [] })
    handle :
        (w : World Handle) (m : Msg) (rest : List Msg) (d : DbActor Handle)
        → s.mailbox ≡ m ∷ rest
        → receive st fsm w m s.actor ≡ ok d
        → Step s (record { actor = d; mailbox = rest ++ d.act.self_sent })

  pub data Reach (s : System) : System → Type 0 where
    here : Reach s s
    next : {t u : System} → Reach s t → Step t u → Reach s u

  -- `Open` makes the actor, and the library sends it `actor.Started`.
  unfoldable pub start : System
  start = record {
    actor = record {
      fm = s_init;
      act = record { behavior = close_state; db = none; self_sent = []; replies = [] };
    };
    mailbox = started ∷ [];
  }

  -- The machine and the behaviour agree; one announcement of `bbolt.Open` is under way exactly while
  -- the machine is in `sOpen`; and the handle is there when requests are taken or about to be.
  pub record IsConsistent (s : System) : Type 0 where
    pub behaves : s.actor.act.behavior ≡ behavior_of s.actor.fm
    pub announced : announcements s.mailbox ≡ opening s.actor.fm
    pub held : s.actor.fm ≡ s_wait_event → is_held s.actor.act.db ≡ true
    pub opened_held : has_opened s.mailbox ≡ true → is_held s.actor.act.db ≡ true

  start-IsConsistent : IsConsistent start
  unfolding start
  start-IsConsistent = record {
    behaves = refl;
    announced = refl;
    held = λ e. cc;
    opened_held = λ e. cc;
  }

  abbrev pub cleared : DbActor Handle → DbActor Handle
  cleared d = record d { act = record d.act { self_sent = []; replies = [] } }

  Settled-Effect :
      (m : Msg) (d d' : DbActor Handle)
      → is_announcement m ≡ false
      → d.fm ≡ s_wait_event
      → Settled st fsm d'
      → Effect st fsm m d d'
  Settled-Effect m d d' n e s = ground arith

  receive-Effect :
      (w : World Handle) (m : Msg) (rest : List Msg) (d d' : DbActor Handle)
      → IsConsistent (record { actor = d; mailbox = m ∷ rest })
      → receive st fsm w m d ≡ ok d'
      → Effect st fsm m (cleared d) d'
  unfolding receive
  receive-Effect w m rest d d' c e = dispatched d.act.behavior refl e
    where
      dispatched :
          (bh : Behavior)
          → d.act.behavior ≡ bh
          → (elim bh [
            | close_state ↦ ok (close_step st fsm w m (cleared d))
            | wait_state ↦ wait_step st fsm w m (cleared d)
          ])
            ≡ ok d'
          → Effect st fsm m (cleared d) d'
      dispatched close_state q e = subst (Effect st fsm m (cleared d)) (ok-injective e) (
          close_step-Effect st fsm w m (cleared d) refl q (closes d.fm (sym c.behaves ∙ q))
            (λ a. opening-s_open d.fm (ground (arith, c.announced)))
            (λ o. c.opened_held (ground arith)))
      dispatched wait_state q e =
          let at_wait : d.fm ≡ s_wait_event = waits d.fm (sym c.behaves ∙ q) in
          Settled-Effect m (cleared d) d' (ground (arith, c.announced, at_wait)) at_wait (
            wait_step-Settled st fsm w m (cleared d) d'
              (record { fm = at_wait; behavior = q; db = c.held at_wait; nothing_sent = refl }) e)

  Effect-IsConsistent :
      (m : Msg) (rest : List Msg) (d d' : DbActor Handle)
      → IsConsistent (record { actor = d; mailbox = m ∷ rest })
      → Effect st fsm m (cleared d) d'
      → IsConsistent (record { actor = d'; mailbox = rest ++ d'.act.self_sent })
  Effect-IsConsistent m rest d d' c e = record {
    behaves = e.behaves;
    announced = omega (arith, announcements-append rest d'.act.self_sent, e.balance, c.announced);
    held = e.held;
    opened_held = λ h. elim (Bool-cases (has_opened d'.act.self_sent)) [
      | inl o ↦ e.opened_held o
      | inr n ↦
          let r : has_opened rest ≡ true =
            ground (arith, has_opened-append rest d'.act.self_sent) in
          let many = announcements_of_opened rest r in
          e.open_stays
            (opening-s_open d'.fm
              (ground (arith, many, e.balance, c.announced, opening_bound d.fm)))
            (opening-s_open d.fm (ground (arith, many, c.announced))) (c.opened_held (ground arith))
    ];
  }

  -- Every step of the system keeps the state consistent.
  Step-IsConsistent : {s t : System} → Step s t → IsConsistent s → IsConsistent t
  Step-IsConsistent {s} (arrive m n) c = record {
    behaves = c.behaves;
    announced =
        omega (arith, announcements-append s.mailbox (m ∷ []), c.announced, ap count_bool n);
    held = c.held;
    opened_held = λ h. c.opened_held (ground (arith, has_opened-append s.mailbox (m ∷ [])));
  }
  Step-IsConsistent {s} (handle w m rest d q e) c =
      let c' : IsConsistent (record { actor = s.actor; mailbox = m ∷ rest }) =
        subst (λ ms. IsConsistent (record { actor = s.actor; mailbox = ms })) q c in
      Effect-IsConsistent m rest s.actor d c' (receive-Effect w m rest s.actor d c' e)

  -- Whatever messages arrive, in whatever order, and whatever the world answers: the actor takes
  -- requests exactly while its machine is in `sWait`, its handle is then there, and exactly one
  -- announcement of `bbolt.Open` waits in its mailbox while the machine is in `sOpen`, none otherwise.
  pub Reach-IsConsistent : {t : System} → Reach start t → IsConsistent t
  Reach-IsConsistent here = start-IsConsistent
  Reach-IsConsistent (next r st) = Step-IsConsistent st (Reach-IsConsistent r)
