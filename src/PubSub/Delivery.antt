-- ===== src/PubSub/Delivery.antt =====
-- A subscription that is asked for while the client has no connection.
use go_gwiot.Prelude.{ℕ, String, ◌≡◌, refl, ap, ◌∙◌, true, false, some, [], ok, eq_refl}
use go_gwiot.Prelude.Bytes.{Bytes}
use go_gwiot.PubSub.{
  Subscription, get_topic, Routes, PubSub, started, TokenWait, subscribe_topic, connects, receive,
  handled, deliver,
}
use go_gwiot.PubSub.Synced.{Iterates, calls, calls-latest, get-put_topic}

module _ {M : Type 0} where
  refused_state :
      (w : TokenWait) (topic : String) (subs : Subscription M) (ps : PubSub M) (m : Routes M)
      → ps.client ≡ some m
      → ((subscribe_topic false w topic subs ps).1 ≡ ok true)
        × ((t : String) (payload : Bytes)
            → deliver t payload (subscribe_topic false w topic subs ps).0 ≡ deliver t payload ps)
        × (get_topic (subscribe_topic false w topic subs ps).0.subscriptions topic ≡ some subs)
  unfolding subscribe_topic deliver
  refused_state w topic subs ps m e = (
    rw e refl,
    λ t payload. rw e refl,
    rw e (get-put_topic ps.subscriptions topic topic subs ∙ rw (eq_refl topic) refl),
  )

  -- `Subscribe` with a client that is not connected returns an error and does not touch the client: every
  -- message still goes where it went, on this topic to whoever subscribed before, if anyone. But the
  -- subscription is kept, and the next start whose client connects, over the subscriptions in any
  -- order, brings it into force.
  pub subscribe_topic-refused :
      (w w' : TokenWait) (waits : ℕ → TokenWait) (topic : String) (subs : Subscription M)
      (ps : PubSub M) (m order : Routes M)
      → ps.client ≡ some m
      → connects w' ≡ true
      → Iterates order (subscribe_topic false w topic subs ps).0.subscriptions
      → let (ps', r) = subscribe_topic false w topic subs ps in
        (r ≡ ok true)
        × ((t : String) (payload : Bytes) → deliver t payload ps' ≡ deliver t payload ps)
        × ((payload : Bytes)
            → deliver topic payload (receive w' waits (started order) ps').0
              ≡ handled payload (some subs))
  unfolding calls
  subscribe_topic-refused w w' waits topic subs ps m order e c i =
      let (r, same, held) = refused_state w topic subs ps m e in
      let ps' = (subscribe_topic false w topic subs ps).0 in
      (
        r,
        same,
        λ payload.
            calls-latest w' waits order ps' [] topic payload i c tt ∙ ap (handled payload) held,
      )
