-- ===== src/Events/Queue.antt =====
-- The events actor over any sequence of messages: what it receives, keeps and sends.
use go_gwiot.Prelude.{
  ◌≡◌, ◌≢◌, refl, sym, ap, ◌∙◌, Bool, true, false, Option, none, some, List, [], ◌∷◌, ◌++◌, map,
  Outcome, ok, ◌>>=◌, >>=-eq-ok, ok-injective, All,
}
use mathlib.Core.List.{append-nil, append_assoc}
use mathlib.Core.Path.{subst}
use go_gwiot.State.Value.{ℤ, Float64, Fields}
use go_gwiot.Events.{
  EventsActor, EventsIn, started, stopping, restarting, event_msg, tick_msg, prepare, receive,
}

-- The events among the messages, as they came.
abbrev pub received : List EventsIn → List Fields
received [] = []
received (event_msg msg ∷ ins) = msg ∷ received ins
received (started s ∷ ins) = received ins
received (stopping ∷ ins) = received ins
received (restarting ∷ ins) = received ins
received (tick_msg ∷ ins) = received ins

abbrev pub with_batch : Option (List Fields) → List (List Fields) → List (List Fields)
with_batch none batches = batches
with_batch (some es) batches = es ∷ batches

abbrev pub joined : List (List Fields) → List Fields
joined [] = []
joined (es ∷ batches) = es ++ joined batches

module _ (is_whole : Float64 → Bool) (millis : Float64 → ℤ) where
  -- The messages handled one after the other, and the batches that are sent.
  unfoldable pub run : EventsActor → List EventsIn → Outcome (EventsActor × List (List Fields))
  run act [] = ok (act, [])
  run act (m ∷ ins) = do
    s ← receive is_whole millis act m
    r ← run s.0 ins
    ok (r.0, with_batch s.1 r.1)

  -- What was in the queue, and the message's event, is sent or still in the queue.
  abbrev Balanced : EventsActor → EventsIn → EventsActor × Option (List Fields) → Type 0
  Balanced act m (act', out) =
      (act.events ++ map (prepare is_whole millis) (received (m ∷ []))
        ≡ joined (with_batch out []) ++ act'.events)
      × (out ≢ some [])

  receive-queue :
      (act : EventsActor) (m : EventsIn) (r : EventsActor × Option (List Fields))
      → receive is_whole millis act m ≡ ok r
      → Balanced act m r
  unfolding receive
  receive-queue act (started true) r h =
      subst (Balanced act (started true)) (ok-injective h) (append-nil act.events, λ e. cc)
  receive-queue act (started false) r h = absurd cc
  receive-queue act (event_msg msg) r h =
      subst (Balanced act (event_msg msg)) (ok-injective h) (refl, λ e. cc)
  receive-queue act stopping r h =
      subst (Balanced act stopping) (ok-injective h) (append-nil act.events, λ e. cc)
  receive-queue act restarting r h =
      subst (Balanced act restarting) (ok-injective h) (append-nil act.events, λ e. cc)
  receive-queue act tick_msg r h = flushed act.events refl h
    where
      flushed :
          (es : List Fields)
          → act.events ≡ es
          → (elim es as (λ x. Outcome (EventsActor × Option (List Fields))) [
            | [] ↦ ok (record act { events = [] }, none)
            | e ∷ rest ↦ ok (record act { events = [] }, some (e ∷ rest))
          ])
            ≡ ok r
          → Balanced act tick_msg r
      flushed [] q h' =
          subst (Balanced act tick_msg) (ok-injective h') (append-nil act.events ∙ q, λ e. cc)
      flushed (e ∷ rest) q h' = subst (Balanced act tick_msg) (ok-injective h') (
        append-nil act.events
            ∙ q
            ∙ sym (append-nil (e ∷ rest))
            ∙ sym (append-nil ((e ∷ rest) ++ [])),
        λ x. cc,
      )

  joined-with_batch :
      (o : Option (List Fields)) (bs : List (List Fields))
      → joined (with_batch o bs) ≡ joined (with_batch o []) ++ joined bs
  joined-with_batch none bs = refl
  joined-with_batch (some es) bs = ap (λ l. l ++ joined bs) (sym (append-nil es))

  with_batch-All :
      (o : Option (List Fields)) (bs : List (List Fields))
      → o ≢ some []
      → All (λ (es : List Fields). es ≢ []) bs
      → All (λ (es : List Fields). es ≢ []) (with_batch o bs)
  with_batch-All none bs n a = a
  with_batch-All (some es) bs n a = (λ e. n (ap some e), a)

  map-received :
      (m : EventsIn) (ins : List EventsIn)
      → map (prepare is_whole millis) (received (m ∷ ins))
        ≡ map (prepare is_whole millis) (received (m ∷ []))
          ++ map (prepare is_whole millis) (received ins)
  map-received (event_msg msg) ins = refl
  map-received (started s) ins = refl
  map-received stopping ins = refl
  map-received restarting ins = refl
  map-received tick_msg ins = refl

  -- Whatever sequence of messages the actor handles without a panic: the events that were in its queue
  -- and those that came, each renamed and stamped, are in the batches that it has sent and then in
  -- its queue, none lost, doubled or out of order; and no batch is empty.
  pub run-queue :
      (ins : List EventsIn) (act act' : EventsActor) (batches : List (List Fields))
      → run act ins ≡ ok (act', batches)
      → (act.events ++ map (prepare is_whole millis) (received ins) ≡ joined batches ++ act'.events)
        × All (λ (es : List Fields). es ≢ []) batches
  unfolding run
  run-queue [] act act' batches h =
      subst
        (λ (x : EventsActor × List (List Fields)).
          (act.events ++ [] ≡ joined x.1 ++ x.0.events) × All (λ (es : List Fields). es ≢ []) x.1)
        (ok-injective h) (append-nil act.events, tt)
  run-queue (m ∷ ins) act act' batches h =
      let (s, one, h1) = >>=-eq-ok (receive is_whole millis act m) _ h in
      let (r, more, h2) = >>=-eq-ok (run s.0 ins) _ h1 in
      let (here, some_event) = receive-queue act m s one in
      let (rest, filled) = run-queue ins s.0 r.0 r.1 more in
      subst
        (λ (x : EventsActor × List (List Fields)).
          (act.events ++ map (prepare is_whole millis) (received (m ∷ ins))
            ≡ joined x.1 ++ x.0.events)
          × All (λ (es : List Fields). es ≢ []) x.1)
        (ok-injective h2)
        (
          ap (λ l. act.events ++ l) (map-received m ins)
              ∙ sym (
                  append_assoc act.events (map (prepare is_whole millis) (received (m ∷ [])))
                    (map (prepare is_whole millis) (received ins)))
              ∙ ap (λ l. l ++ map (prepare is_whole millis) (received ins)) here
              ∙ append_assoc (joined (with_batch s.1 [])) s.0.events
                  (map (prepare is_whole millis) (received ins))
              ∙ ap (λ l. joined (with_batch s.1 []) ++ l) rest
              ∙ sym (append_assoc (joined (with_batch s.1 [])) (joined r.1) r.0.events)
              ∙ ap (λ l. l ++ r.0.events) (sym (joined-with_batch s.1 r.1)),
          with_batch-All s.1 r.1 some_event filled,
        )
