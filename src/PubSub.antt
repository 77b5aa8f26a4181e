-- ===== src/PubSub.antt =====
-- The gateway to the local broker of internal/pubsub/pubsub.go: an actor with one client, and a map of
-- subscriptions. `Subscribe` is called by other actors on the shared instance, under a lock; a panic
-- restarts the actor with the same instance. Logging and sleeping are left out.
pub mod Synced
pub mod Delivery
mod Examples
use go_gwiot.Prelude.{
  ℕ, suc, String, Bool, true, false, not, Option, none, some, List, [], ◌∷◌, ◌++◌, Outcome, ok,
  panic, str_eq, if◌then◌else◌,
}
use go_gwiot.Prelude.Bytes.{Bytes}

-- The messages that parsers make, of any type `M`.
module _ (M : Type 0) where
  -- `subscribeMSG`: who gets the messages, and how they are parsed; `none` is a nil interface.
  pub record Subscription : Type 0 where
    pub pid : Bytes
    pub parse : Bytes → Option M

-- A map from topics.
module _ {A : Type 0} where
  unfoldable pub get_topic : List (String × A) → String → Option A
  get_topic [] k = none
  get_topic ((j, v) ∷ m) k = if str_eq j k then some v else get_topic m k

  unfoldable pub put_topic : List (String × A) → String → A → List (String × A)
  put_topic [] k v = (k, v) ∷ []
  put_topic ((j, w) ∷ m) k v = if str_eq j k then (j, v) ∷ m else (j, w) ∷ put_topic m k v

-- A client keeps the handler of each topic that it was asked to subscribe to. The handler is the closure
-- of `subscribe`, and reads only its subscription.
abbrev pub Routes : Type 0 → Type 0
Routes M = List (String × Subscription M)

pub record PubSub (M : Type 0) : Type 0 where
  pub has_ctx : Bool  -- `ps.ctx != nil`
  pub client : Option (Routes M)
  pub subscriptions : Routes M

-- What the actor receives. With `started` comes the order in which the loop meets the subscriptions.
-- The `publishMSG` that `Publish` sends has no case.
pub data PubSubIn (M : Type 0) : Type 0 where
  started : Routes M → PubSubIn M
  publish_msg : String → Bytes → PubSubIn M
  stopping : PubSubIn M
  stopped : PubSubIn M
  restarting : PubSubIn M

-- How a wait for the token of a subscription ends: `timely` is true if it ends in time, and `failed` if
-- `tk.Error()` is an error.
pub record TokenWait : Type 0 where
  pub timely : Bool
  pub failed : Bool

-- `connect`: whether it returns no error.
abbrev pub connects : TokenWait → Bool
connects w = if w.timely then not w.failed else false

module _ {M : Type 0} where
  -- `getInstance`
  unfoldable pub new_pubsub : PubSub M
  new_pubsub = record { has_ctx = false; client = none; subscriptions = [] }

  -- `instance.client.Subscribe(topic, 1, handler)`
  abbrev pub with_route : String → Subscription M → PubSub M → PubSub M
  with_route topic subs ps = record ps {
    client = elim ps.client [ none ↦ none | some m ↦ some (put_topic m topic subs) ];
  }

  -- `subscribe`: the state, and whether it returns an error, which no caller reads.
  unfoldable pub subscribe : TokenWait → String → Subscription M → PubSub M → PubSub M × Bool
  subscribe w topic subs ps = (with_route topic subs ps, if w.timely then false else w.failed)

  -- `Subscribe`: the state and whether it returns an error. Before the actor has started there is no
  -- client to ask, and the call panics in its caller's actor, with the subscription kept.
  unfoldable pub subscribe_topic :
      Bool → TokenWait → String → Subscription M → PubSub M → PubSub M × Outcome Bool
  unfolding subscribe
  subscribe_topic is_connected w topic subs ps =
      let ps' = record ps { subscriptions = put_topic ps.subscriptions topic subs } in
      elim ps.client [
        | none ↦ (ps', panic)
        | some m ↦
            if is_connected then ((subscribe w topic subs ps').0, ok false) else (ps', ok true)
      ]

  -- The loop over the subscriptions of a new client.
  unfoldable pub subscribe_all : (ℕ → TokenWait) → Routes M → PubSub M → PubSub M
  unfolding subscribe
  subscribe_all waits [] ps = ps
  subscribe_all waits ((topic, subs) ∷ m) ps =
      subscribe_all (λ i. waits (suc i)) m (subscribe (waits 0) topic subs ps).0

  -- A new client, with no route; `true` is the end without a panic.
  unfoldable pub start : TokenWait → (ℕ → TokenWait) → Routes M → PubSub M → PubSub M × Bool
  unfolding subscribe_all
  start w waits order ps =
      let ps' = record ps { has_ctx = true; client = some [] } in
      if connects w then (subscribe_all waits order ps', true) else (ps', false)

  -- `Receive`
  unfoldable pub receive : TokenWait → (ℕ → TokenWait) → PubSubIn M → PubSub M → PubSub M × Bool
  unfolding start
  receive w waits (started order) ps = start w waits order ps
  receive w waits (publish_msg topic content) ps = (record ps { has_ctx = true }, true)
  receive w waits stopping ps =
      (record ps { has_ctx = true }, elim ps.client [ none ↦ false | some m ↦ true ])
  receive w waits stopped ps = (record ps { has_ctx = true }, true)
  receive w waits restarting ps = (record ps { has_ctx = true }, true)

  -- `Publish`: a message to the actor, which has no case for it.
  unfoldable pub publish : String → Bytes → PubSub M → Outcome (PubSubIn M)
  publish topic content ps = if ps.has_ctx then ok (publish_msg topic content) else panic

  -- What the handler of a subscription sends, and to whom.
  abbrev pub handled : Bytes → Option (Subscription M) → List (Bytes × M)
  handled payload none = []
  handled payload (some subs) = elim (subs.parse payload) [
    | none ↦ []
    | some msg ↦ (subs.pid, msg) ∷ []
  ]

  -- A message of the broker for which the MQTT library calls the handler of the route with this topic
  -- filter: what the handler sends, and to whom. Which filters a topic matches is the library's matter.
  unfoldable pub deliver : String → Bytes → PubSub M → List (Bytes × M)
  unfolding get_topic
  deliver filter payload ps = elim ps.client [
    | none ↦ []
    | some m ↦ handled payload (get_topic m filter)
  ]
