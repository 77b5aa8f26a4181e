-- ===== src/Events.antt =====
-- The events actor of internal/events: events are renamed, stamped and put into a queue, which every
-- tick of a timer hands to the app. The lock around the queue, which only the actor uses, and the
-- ticker are left out.
pub mod Queue
mod Examples
use go_gwiot.Prelude.{
  Bool, true, false, Option, none, some, List, [], ◌∷◌, ◌++◌, Outcome, ok, panic, ◌>>=◌,
  if◌then◌else◌,
}
use go_gwiot.Prelude.Bytes.{Bytes}
use go_gwiot.State.Value.{Decoded, ℤ, Float64, Value, float64, int64, Fields, get, put}
use go_gwiot.State.Replace.{replace_keys}

-- `Events` is the queue.
pub record EventsActor : Type 0 where
  pub events : List Fields

unfoldable pub new_events : EventsActor
new_events = record { events = [] }

unfoldable pub put_event : Fields → EventsActor → EventsActor
put_event ev act = record act { events = act.events ++ ev ∷ [] }

-- The queue, and the actor with an empty one.
unfoldable pub get_events : EventsActor → List Fields × EventsActor
get_events act = (act.events, record act { events = [] })

-- `parseEvents`, over `json.Unmarshal`; `none` is the nil interface.
unfoldable pub parse_events : (Bytes → Decoded) → Bytes → Option Fields
parse_events unmarshal msg =
    let event = unmarshal msg in if event.failed then none else some event.value

pub data EventsIn : Type 0 where
  started : Bool → EventsIn  -- whether `pubsub.Subscribe` succeeds
  stopping : EventsIn
  restarting : EventsIn
  event_msg : Fields → EventsIn
  tick_msg : EventsIn

-- `v == math.Trunc(v)` and `(int64)(v * 1000)` on a float64 are parameters.
module _ (is_whole : Float64 → Bool) (millis : Float64 → ℤ) where
  stamped : Option Value → Fields → Fields
  stamped (some (float64 f)) event = if is_whole f then event else put event "t" (int64 (millis f))
  stamped _ event = event

  -- The event that is put into the queue.
  unfoldable pub prepare : Fields → Fields
  unfolding stamped
  prepare msg = let event = replace_keys msg in stamped (get event "t") event

  -- The new state, and the events that are sent to the parent.
  unfoldable pub receive : EventsActor → EventsIn → Outcome (EventsActor × Option (List Fields))
  unfolding prepare put_event get_events
  receive act (started true) = ok (act, none)
  receive act (started false) = panic
  receive act (event_msg msg) = ok (put_event (prepare msg) act, none)
  receive act tick_msg =
      let (dts, act') = get_events act in
      elim dts [ [] ↦ ok (act', none) | e ∷ es ↦ ok (act', some (e ∷ es)) ]
  receive act stopping = ok (act, none)
  receive act restarting = ok (act, none)
