-- ===== src/Database/Fsm.antt =====
-- The states and events of internal/database/fsm.go, over github.com/looplab/fsm as a parameter.
use go_gwiot.Prelude.{
  ◌≡◌, ◌≢◌, ◌∙◌, Bool, true, false, ◌&&◌, Option, none, some, List, [], ◌∷◌, arith, if◌then◌else◌,
  inl, inr, Option-cases,
}

pub data State : Type 0 where
  s_init s_open s_close s_restart s_wait_event : State

pub data Event : Type 0 where
  e_open_cmd e_opened e_closed e_error e_start : Event

abbrev pub state_eq : State → State → Bool
state_eq s_init s_init = true
state_eq s_open s_open = true
state_eq s_close s_close = true
state_eq s_restart s_restart = true
state_eq s_wait_event s_wait_event = true
state_eq _ _ = false

abbrev pub event_eq : Event → Event → Bool
event_eq e_open_cmd e_open_cmd = true
event_eq e_opened e_opened = true
event_eq e_closed e_closed = true
event_eq e_error e_error = true
event_eq e_start e_start = true
event_eq _ _ = false

-- `fsm.EventDesc`
pub record EventDesc : Type 0 where
  pub name : Event
  pub src : List State
  pub dst : State

-- `fsm.Events` of `initFSM`
abbrev pub fsm_events : List EventDesc
fsm_events =
    record { name = e_open_cmd; src = s_init ∷ s_close ∷ s_restart ∷ []; dst = s_open }
    ∷ record { name = e_opened; src = s_open ∷ []; dst = s_wait_event }
    ∷ record { name = e_closed; src = s_open ∷ s_wait_event ∷ []; dst = s_close }
    ∷ record { name = e_error; src = s_open ∷ s_wait_event ∷ []; dst = s_restart }
    ∷ []

abbrev pub mem : State → List State → Bool
mem s [] = false
mem s (x ∷ xs) = if state_eq s x then true else mem s xs

-- The destination that a table gives an event in a state.
abbrev pub destination : List EventDesc → Event → State → Option State
destination [] ev s = none
destination (d ∷ ds) ev s =
    if event_eq d.name ev && mem s d.src then some d.dst else destination ds ev s

-- What the code relies on of `fsm.FSM.Event`, with the machine's current state beside the data `A` that
-- the callbacks change: an event that the table does not give in the current state is refused and
-- changes nothing; one that leads to another state moves there, and then runs its `enter_` callback.
-- The code's other callbacks only log, or cancel on an error that is not set yet.
pub record Fsm (A : Type 0) : Type 0 where
  pub fire : List EventDesc → (State → A → A) → Event → State × A → State × A
  pub fire_refused :
      (table : List EventDesc) (enter : State → A → A) (ev : Event) (s : State) (a : A)
      → destination table ev s ≡ none
      → fire table enter ev (s, a) ≡ (s, a)
  pub fire_moves :
      (table : List EventDesc) (enter : State → A → A) (ev : Event) (s d : State) (a : A)
      → destination table ev s ≡ some d
      → s ≢ d
      → fire table enter ev (s, a) ≡ (d, enter d a)

-- The events that a state accepts, and where they lead.
abbrev pub next_state : Event → State → Option State
next_state e_open_cmd s_init = some s_open
next_state e_open_cmd s_close = some s_open
next_state e_open_cmd s_restart = some s_open
next_state e_opened s_open = some s_wait_event
next_state e_closed s_open = some s_close
next_state e_closed s_wait_event = some s_close
next_state e_error s_open = some s_restart
next_state e_error s_wait_event = some s_restart
next_state _ _ = none

abbrev pub moved : {A : Type 0} → (State → A → A) → State → A → Option State → State × A
moved enter s a none = (s, a)
moved enter s a (some d) = (d, enter d a)

destination-next_state : (ev : Event) (s : State) → destination fsm_events ev s ≡ next_state ev s
destination-next_state e_open_cmd s = ground arith
destination-next_state e_opened s = ground arith
destination-next_state e_closed s = ground arith
destination-next_state e_error s = ground arith
destination-next_state e_start s = ground arith

next_state-ne : (ev : Event) (s d : State) → next_state ev s ≡ some d → s ≢ d
next_state-ne ev s d h e = ground arith

-- An event of the table moves the machine and runs the callback of the state that it enters; any other
-- changes nothing.
pub fire-next_state :
    {A : Type 0} (f : Fsm A) (enter : State → A → A) (ev : Event) (s : State) (a : A)
    → f.fire fsm_events enter ev (s, a) ≡ moved enter s a (next_state ev s)
fire-next_state f enter ev s a = elim (Option-cases (next_state ev s)) [
  | inl e ↦ rw e (f.fire_refused fsm_events enter ev s a (destination-next_state ev s ∙ e))
  | inr (d, e) ↦ rw e (
      f.fire_moves fsm_events enter ev s d a (destination-next_state ev s ∙ e)
        (next_state-ne ev s d e))
]
