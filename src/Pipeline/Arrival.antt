-- ===== src/Pipeline/Arrival.antt =====
-- The messages of the local broker on their way to the events actor: the gateway parses each with the
-- parser of its subscription and sends what it makes of it to the subscriber.
use go_gwiot.Prelude.{
  ℕ, String, ◌≡◌, refl, sym, ap, ◌∙◌, Bool, true, Option, none, some, List, [], ◌∷◌, ◌++◌, map, ok,
  str_eq, if◌then◌else◌, inl, inr, Bool-cases,
}
use mathlib.Core.List.{append-nil}
use go_gwiot.Prelude.Bytes.{Bytes, bytes_eq, bytes_eq_refl}
use go_gwiot.State.Value.{ℤ, Float64, Fields, Decoded}
use go_gwiot.State.Actor.{parse_status}
use go_gwiot.PubSub.{
  Subscription, get_topic, Routes, PubSub, started, TokenWait, connects, receive, handled, deliver,
}
use go_gwiot.PubSub.Synced.{Iterates, Accepted, Call, calls, latest, calls-latest}
use go_gwiot.Events.{EventsActor, EventsIn, parse_events, prepare}
use go_gwiot.Events.Queue.{received, joined, run, run-queue}

-- What the parsers make: a `*StatusMsg` or an `*EventMsg`.
pub data Incoming : Type 0 where
  status : Fields → Incoming
  event : Fields → Incoming

abbrev pub boxed : (Fields → Incoming) → Option Fields → Option Incoming
boxed c none = none
boxed c (some m) = some (c m)

-- A message of the broker: the topic filter of the route whose handler the library calls for it, and its
-- payload. The two filters of the program have no topic in common.
abbrev pub Arrival : Type 0
Arrival = String × Bytes

-- What the gateway sends, and to whom, for a sequence of messages.
abbrev pub deliveries : PubSub Incoming → List Arrival → List (Bytes × Incoming)
deliveries ps [] = []
deliveries ps ((topic, payload) ∷ came) = deliver topic payload ps ++ deliveries ps came

-- The events among what is sent, for one actor.
abbrev pub events_for : Bytes → List (Bytes × Incoming) → List Fields
events_for p [] = []
events_for p ((q, event m) ∷ ms) =
    let rest = events_for p ms in if bytes_eq q p then m ∷ rest else rest
events_for p ((q, status m) ∷ ms) = events_for p ms

events_for-append :
    (p : Bytes) (ms ns : List (Bytes × Incoming))
    → events_for p (ms ++ ns) ≡ events_for p ms ++ events_for p ns
events_for-append p [] ns = refl
events_for-append p ((q, status m) ∷ ms) ns = events_for-append p ms ns
events_for-append p ((q, event m) ∷ ms) ns = elim (Bool-cases (bytes_eq q p)) [
  | inl e ↦ rw e (ap (λ l. m ∷ l) (events_for-append p ms ns))
  | inr e ↦ rw e (events_for-append p ms ns)
]

-- `json.Unmarshal` into a `StatusMsg` and into an `EventMsg`.
module _ (unmarshal_status unmarshal_event : Bytes → Decoded) where
  -- What the two actors subscribe with when they start.
  abbrev pub status_subscription : Bytes → Subscription Incoming
  status_subscription q = record {
    pid = q;
    parse = λ msg. boxed status (parse_status unmarshal_status msg);
  }

  abbrev pub events_subscription : Bytes → Subscription Incoming
  events_subscription p = record {
    pid = p;
    parse = λ msg. boxed event (parse_events unmarshal_event msg);
  }

  abbrev pub subscribed : Bytes → Bytes → String → Option (Subscription Incoming)
  subscribed p q topic =
      if str_eq "EVENTS/#" topic
      then some (events_subscription p)
      else if str_eq "STATUS/state" topic
      then some (status_subscription q)
      else none

  -- The events among the messages of the broker: those on the topic of events whose payload is decoded
  -- without an error.
  abbrev pub event_text : Arrival → List Fields
  event_text (topic, payload) =
      if str_eq "EVENTS/#" topic
      then (let decoded = unmarshal_event payload in
          if decoded.failed then [] else decoded.value ∷ [])
      else []

  abbrev pub event_texts : List Arrival → List Fields
  event_texts [] = []
  event_texts (a ∷ came) = event_text a ++ event_texts came

  events_for-parsed :
      (p : Bytes) (parsed : Option Fields)
      → events_for p (elim (boxed event parsed) [ none ↦ [] | some msg ↦ (p, msg) ∷ [] ])
        ≡ elim parsed [ none ↦ [] | some m ↦ m ∷ [] ]
  events_for-parsed p none = refl
  events_for-parsed p (some m) = rw (bytes_eq_refl p) refl

  events_for-status :
      (p q : Bytes) (parsed : Option Fields)
      → events_for p (elim (boxed status parsed) [ none ↦ [] | some msg ↦ (q, msg) ∷ [] ]) ≡ []
  events_for-status p q none = refl
  events_for-status p q (some m) = refl

  parse_events-text :
      (payload : Bytes)
      → elim (parse_events unmarshal_event payload) [ none ↦ [] | some m ↦ m ∷ [] ] ≡ (
          let decoded = unmarshal_event payload in
          if decoded.failed then [] else decoded.value ∷ [])
  unfolding parse_events
  parse_events-text payload = elim (Bool-cases (unmarshal_event payload).failed) [
    | inl bad ↦ rw bad refl
    | inr good ↦ rw good refl
  ]

  handled-event_text :
      (p q : Bytes) (topic : String) (payload : Bytes)
      → events_for p (handled payload (subscribed p q topic)) ≡ event_text (topic, payload)
  handled-event_text p q topic payload = elim (Bool-cases (str_eq "EVENTS/#" topic)) [
    | inl e ↦
        rw e
          (events_for-parsed p (parse_events unmarshal_event payload) ∙ parse_events-text payload)
    | inr e ↦ elim (Bool-cases (str_eq "STATUS/state" topic)) [
      | inl s ↦ rw (e, s) (events_for-status p q (parse_status unmarshal_status payload))
      | inr s ↦ rw (e, s) refl
    ]
  ]

  events_for-deliveries :
      (p q : Bytes) (ps : PubSub Incoming) (came : List Arrival)
      → ((topic : String) (payload : Bytes)
          → deliver topic payload ps ≡ handled payload (subscribed p q topic))
      → events_for p (deliveries ps came) ≡ event_texts came
  events_for-deliveries p q ps [] h = refl
  events_for-deliveries p q ps ((topic, payload) ∷ came) h =
      events_for-append p (deliver topic payload ps) (deliveries ps came)
      ∙ ap (λ l. l ++ events_for p (deliveries ps came))
          (ap (events_for p) (h topic payload) ∙ handled-event_text p q topic payload)
      ∙ ap (λ l. event_text (topic, payload) ++ l) (events_for-deliveries p q ps came h)

  module _ (is_whole : Float64 → Bool) (millis : Float64 → ℤ) where
    -- The gateway has started with a client that connects, over the subscriptions in any order, and no
    -- call of `Subscribe` since then has failed; the last ones to have subscribed, before the start
    -- or after it, are the events actor to its topic and the status actor to its own, and no one to
    -- any other. Then, for any messages of the broker, if the events actor gets just the events that
    -- the gateway sends it, in that order and with any other messages between them, handles them
    -- without a panic, and starts and ends with an empty queue: its batches, joined, are the events
    -- whose payloads can be decoded, each renamed and stamped, in the order of their arrival, none
    -- lost or doubled.
    pub arrivals-batches :
        (p q : Bytes) (w : TokenWait) (waits : ℕ → TokenWait) (order : Routes Incoming)
        (ps : PubSub Incoming) (cs : List (Call Incoming)) (came : List Arrival)
        (ins : List EventsIn) (act act' : EventsActor) (batches : List (List Fields))
        → Iterates order ps.subscriptions
        → connects w ≡ true
        → Accepted cs (receive w waits (started order) ps).0
        → ((topic : String)
            → latest cs topic (get_topic ps.subscriptions topic) ≡ subscribed p q topic)
        → received ins
          ≡ events_for p (deliveries (calls cs (receive w waits (started order) ps).0) came)
        → run is_whole millis act ins ≡ ok (act', batches)
        → act.events ≡ []
        → act'.events ≡ []
        → joined batches ≡ map (prepare is_whole millis) (event_texts came)
    arrivals-batches p q w waits order ps cs came ins act act' batches i c a sub got h e e' =
        let up = calls cs (receive w waits (started order) ps).0 in
        let texts =
          got
          ∙ events_for-deliveries p q up came (λ topic payload.
            calls-latest w waits order ps cs topic payload i c a
            ∙ ap (handled payload) (sub topic)) in
        let all = (run-queue is_whole millis ins act act' batches h).0 in
        sym (append-nil (joined batches))
        ∙ ap (λ l. joined batches ++ l) (sym e')
        ∙ sym all
        ∙ ap (λ l. l ++ map (prepare is_whole millis) (received ins)) e
        ∙ ap (map (prepare is_whole millis)) texts
