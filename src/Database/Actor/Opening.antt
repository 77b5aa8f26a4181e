-- ===== src/Database/Actor/Opening.antt =====
-- What a message leaves of the actor that has no open database: its state, its machine, its handle and
-- what it tells itself.
use go_gwiot.Prelude.{
  ℕ, ◌+◌, ◌≡◌, ◌≢◌, refl, ap, ◌∙◌, Bool, true, false, ◌||◌, Option, none, some, List, [], ◌∷◌,
  arith,
}
use go_gwiot.Database.Bolt.{Bolt}
use go_gwiot.Database.Fsm.{
  Fsm, State, s_open, s_wait_event, Event, e_open_cmd, e_opened, e_error, next_state, moved,
  fire-next_state,
}
use go_gwiot.Database.Messages.{Msg, started, open_db, opened_db, error_db}
use go_gwiot.Database.Storage.{Storage}
use go_gwiot.Database.Actor.{
  Behavior, close_state, wait_state, Actor, DbActor, World, enter, event, close_step,
}

-- The behaviour that belongs to a state of the machine.
abbrev pub behavior_of : State → Behavior
behavior_of s_wait_event = wait_state
behavior_of _ = close_state

-- What `bbolt.Open` makes the actor tell itself.
abbrev pub is_announcement : Msg → Bool
is_announcement opened_db = true
is_announcement error_db = true
is_announcement _ = false

abbrev pub count_bool : Bool → ℕ
count_bool true = 1
count_bool false = 0

abbrev pub announcements : List Msg → ℕ
announcements [] = 0
announcements (m ∷ ms) = count_bool (is_announcement m) + announcements ms

abbrev pub is_opened : Msg → Bool
is_opened opened_db = true
is_opened _ = false

abbrev pub has_opened : List Msg → Bool
has_opened [] = false
has_opened (m ∷ ms) = is_opened m || has_opened ms

abbrev pub opening : State → ℕ
opening s_open = 1
opening _ = 0

abbrev pub is_held : {H : Type 0} → Option H → Bool
is_held none = false
is_held (some h) = true

module _ {b : Bolt} (st : Storage b) (fsm : Fsm (Actor st.Handle)) where
  open st use {Handle}

  abbrev pub after : World Handle → DbActor Handle → Option State → DbActor Handle
  after w d none = d
  after w d (some s) = record { fm = s; act = enter st fsm w s d.act }

  abbrev joined : State × Actor Handle → DbActor Handle
  joined (s, a) = record { fm = s; act = a }

  joined-moved :
      (w : World Handle) (d : DbActor Handle) (o : Option State)
      → joined (moved (enter st fsm w) d.fm d.act o) ≡ after w d o
  joined-moved w d none = refl
  joined-moved w d (some s) = refl

  pub event-after :
      (w : World Handle) (ev : Event) (d : DbActor Handle)
      → event st fsm w ev d ≡ after w d (next_state ev d.fm)
  unfolding event
  event-after w ev d =
      ap joined (fire-next_state fsm (enter st fsm w) ev d.fm d.act)
      ∙ joined-moved w d (next_state ev d.fm)

  -- What a handled message changes, from an actor that has sent nothing to itself yet.
  pub record Effect (m : Msg) (d d' : DbActor Handle) : Type 0 where
    pub behaves : d'.act.behavior ≡ behavior_of d'.fm
    pub balance :
        opening d'.fm + count_bool (is_announcement m)
        ≡ opening d.fm + announcements d'.act.self_sent
    pub held : d'.fm ≡ s_wait_event → is_held d'.act.db ≡ true
    pub opened_held : has_opened d'.act.self_sent ≡ true → is_held d'.act.db ≡ true
    pub open_stays :
        d'.fm ≡ s_open → d.fm ≡ s_open → is_held d.act.db ≡ true → is_held d'.act.db ≡ true

  pub close_step-Effect :
      (w : World Handle) (m : Msg) (d : DbActor Handle)
      → d.act.self_sent ≡ []
      → d.act.behavior ≡ close_state
      → d.fm ≢ s_wait_event
      → (is_announcement m ≡ true → d.fm ≡ s_open)
      → (is_opened m ≡ true → is_held d.act.db ≡ true)
      → Effect m d (close_step st fsm w m d)
  unfolding close_step enter
  close_step-Effect w started d e c n a o = ground (arith, event-after w e_open_cmd d)
  close_step-Effect w error_db d e c n a o = ground (arith, event-after w e_error d)
  close_step-Effect w open_db d e c n a o = ground (arith, event-after w e_open_cmd d)
  close_step-Effect w opened_db d e c n a o =
      ground
        (arith, event-after w e_opened (record d { act = record d.act { behavior = wait_state } }))
  close_step-Effect w _ d e c n a o = ground arith
