-- ===== src/Pipeline/Examples/Broker.antt =====
-- Messages of the broker on their way to the events actor, at concrete inputs.
use go_gwiot.Prelude.{String, map, ◌≡◌, refl, true, false, none, List, [], ◌∷◌}
use go_gwiot.Prelude.Bytes.{Bytes, ascii}
use go_gwiot.State.Value.{Decoded, end}
use go_gwiot.Events.{parse_events, prepare}
use go_gwiot.Events.Queue.{joined, received}
use go_gwiot.Prelude.Bytes.{bytes_eq}
use go_gwiot.State.Actor.{parse_status}
use go_gwiot.PubSub
use go_gwiot.PubSub.{PubSub, TokenWait, put_topic, get_topic}
use go_gwiot.PubSub.Synced.{Iterates, Accepted, Call, call, calls, latest}
use go_gwiot.Pipeline.Arrival.{
  Incoming, Arrival, status_subscription, events_subscription, subscribed, deliveries, events_for,
  event_texts, arrivals-batches,
}
use go_gwiot.Pipeline.Examples.{is_whole, millis, empty, event, ins, batch, run-ins}

-- A payload that is empty cannot be decoded.
abbrev decode : Bytes → Decoded
decode [] = record { value = end; failed = true }
decode (c ∷ payload) = record { value = event; failed = false }

abbrev in_time : TokenWait
in_time = record { timely = true; failed = false }

abbrev subscribers : List (Call Incoming)
subscribers =
    ("STATUS/state", status_subscription decode decode (ascii "status"), true, in_time)
    ∷ ("EVENTS/#", events_subscription decode decode (ascii "events"), true, in_time)
    ∷ []

abbrev fresh : PubSub Incoming
fresh = record { has_ctx = false; client = none; subscriptions = [] }

abbrev arrivals : List Arrival
arrivals = ("EVENTS/#", ascii "{") ∷ ("STATUS/state", ascii "{") ∷ ("EVENTS/#", []) ∷ []

subscribers-Accepted :
    Accepted subscribers (PubSub.receive in_time (λ i. in_time) (PubSub.started []) fresh).0
unfolding PubSub.receive call PubSub.subscribe_topic put_topic
subscribers-Accepted = (refl, (refl, tt))

fresh-Iterates : Iterates [] fresh.subscriptions
fresh-Iterates = (tt, λ k. refl)

subscribers-latest :
    (topic : String)
    → latest subscribers topic (get_topic fresh.subscriptions topic)
      ≡ subscribed decode decode (ascii "events") (ascii "status") topic
unfolding get_topic
subscribers-latest topic = refl

ins-received :
    received ins
    ≡ events_for (ascii "events") (
        deliveries
          (calls subscribers (PubSub.receive in_time (λ i. in_time) (PubSub.started []) fresh).0)
          arrivals)
unfolding PubSub.receive PubSub.deliver calls call PubSub.subscribe_topic put_topic get_topic
    parse_events parse_status bytes_eq
ins-received = refl

arrivals-batches_example :
    joined (batch ∷ []) ≡ map (prepare is_whole millis) (event_texts decode decode arrivals)
arrivals-batches_example =
    arrivals-batches decode decode is_whole millis (ascii "events") (ascii "status") in_time
      (λ i. in_time) [] fresh subscribers arrivals ins empty empty (batch ∷ []) fresh-Iterates refl
      subscribers-Accepted subscribers-latest ins-received run-ins refl refl
