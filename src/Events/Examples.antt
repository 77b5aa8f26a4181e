-- ===== src/Events/Examples.antt =====
-- Runs of the events actor, and its theorem at a concrete input.
use go_gwiot.Prelude.{◌≡◌, ◌≢◌, refl, Bool, true, List, [], ◌∷◌, ◌++◌, map, ok, All, ◌==◌}
use go_gwiot.State.Value.{ℤ, pos, Float64, float64, int64, string, Fields, end, field, get, put}
use go_gwiot.State.Replace.{replace_keys, replace_value}
use go_gwiot.State.Keys.{rename}
use go_gwiot.Events.{
  EventsActor, EventsIn, started, event_msg, tick_msg, new_events, put_event, prepare, receive,
}
use go_gwiot.Events.Queue.{received, joined, run, run-queue}

abbrev is_whole : Float64 → Bool
is_whole f = f.bits == 0

abbrev millis : Float64 → ℤ
millis f = pos f.bits

abbrev door : Fields
door = field "type" (string "DOOR") (field "timeStamp" (float64 (record { bits = 5 })) end)

abbrev door_kept : Fields
door_kept = field "tp" (string "DOOR") (field "t" (int64 (pos 5)) end)

prepare-door : prepare is_whole millis door ≡ door_kept
unfolding prepare replace_keys replace_value rename put get
prepare-door = refl

abbrev inputs : List EventsIn
inputs = started true ∷ tick_msg ∷ event_msg door ∷ event_msg door ∷ tick_msg ∷ event_msg door ∷ []

abbrev left_over : EventsActor
left_over = record { events = door_kept ∷ [] }

abbrev batches : List (List Fields)
batches = (door_kept ∷ door_kept ∷ []) ∷ []

run-inputs : run is_whole millis new_events inputs ≡ ok (left_over, batches)
unfolding run receive prepare put_event new_events replace_keys replace_value rename put get
run-inputs = refl

run-queue_example :
    (new_events.events ++ map (prepare is_whole millis) (received inputs)
      ≡ joined batches ++ left_over.events)
    × All (λ (es : List Fields). es ≢ []) batches
run-queue_example = run-queue is_whole millis inputs new_events left_over batches run-inputs
