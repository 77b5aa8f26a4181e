-- ===== src/PubSub/Examples.antt =====
-- Runs of the gateway to the local broker, and its theorems at concrete inputs.
use go_gwiot.Prelude.{◌≡◌, refl, true, false, some, none, List, [], ◌∷◌, String, ok}
use go_gwiot.Prelude.Bytes.{Bytes, ascii}
use go_gwiot.PubSub.{
  Subscription, get_topic, put_topic, Routes, PubSub, started, TokenWait, new_pubsub,
  subscribe_topic, receive, publish, publish_msg, handled, deliver,
}
use go_gwiot.PubSub.Synced.{Iterates, Accepted, Call, call, calls, latest, calls-latest}
use go_gwiot.PubSub.Delivery.{subscribe_topic-refused}

abbrev whole : Bytes → Subscription Bytes
whole pid = record { pid = pid; parse = λ payload. some payload }

abbrev in_time : TokenWait
in_time = record { timely = true; failed = false }

abbrev routes : Routes Bytes
routes = ("STATUS/state", whole (ascii "status")) ∷ []

-- One actor has subscribed before the client was there.
abbrev waiting : PubSub Bytes
waiting = record { has_ctx = true; client = none; subscriptions = routes }

abbrev later : List (Call Bytes)
later = ("EVENTS/#", whole (ascii "events"), true, in_time) ∷ []

subscribe_topic-waiting :
    (subscribe_topic true in_time "STATUS/state"
      (whole (ascii "status"))
      new_pubsub).0.subscriptions
    ≡ routes
unfolding subscribe_topic new_pubsub put_topic
subscribe_topic-waiting = refl

publish-ignored :
    publish "STATUS/state" (ascii "x") waiting ≡ ok (publish_msg "STATUS/state" (ascii "x"))
unfolding publish
publish-ignored = refl

abbrev up : PubSub Bytes
up = record { has_ctx = true; client = some routes; subscriptions = routes }

receive-up : (receive in_time (λ i. in_time) (started routes) waiting).0 ≡ up
unfolding receive put_topic
receive-up = refl

deliver-up : deliver "STATUS/state" (ascii "x") up ≡ (ascii "status", ascii "x") ∷ []
unfolding deliver
deliver-up = refl

same_routes : Iterates routes routes
unfolding get_topic
same_routes = ((refl, tt), λ k. refl)

later-Accepted : Accepted later (receive in_time (λ i. in_time) (started routes) waiting).0
unfolding receive put_topic call subscribe_topic
later-Accepted = (refl, tt)

calls-latest_example :
    deliver "EVENTS/#"
      (ascii "x")
      (calls later (receive in_time (λ i. in_time) (started routes) waiting).0)
    ≡ handled (ascii "x") (latest later "EVENTS/#" (get_topic routes "EVENTS/#"))
calls-latest_example =
    calls-latest in_time (λ i. in_time) routes waiting later "EVENTS/#" (ascii "x") same_routes refl
      later-Accepted

abbrev moved : Routes Bytes
moved = ("STATUS/state", whole (ascii "other")) ∷ []

moved-Iterates :
    Iterates moved
      (subscribe_topic false in_time "STATUS/state" (whole (ascii "other")) up).0.subscriptions
unfolding subscribe_topic put_topic get_topic
moved-Iterates = ((refl, tt), λ k. refl)

subscribe_topic-refused_example :
    let (ps', r) = subscribe_topic false in_time "STATUS/state" (whole (ascii "other")) up in
    (r ≡ ok true)
    × ((t : String) (payload : Bytes) → deliver t payload ps' ≡ deliver t payload up)
    × ((payload : Bytes)
        → deliver "STATUS/state" payload (receive in_time (λ i. in_time) (started moved) ps').0
          ≡ handled payload (some (whole (ascii "other"))))
subscribe_topic-refused_example =
    subscribe_topic-refused in_time in_time (λ i. in_time) "STATUS/state" (whole (ascii "other")) up
      routes moved refl refl moved-Iterates
