-- ===== src/Pipeline.antt =====
-- The way of an event through three actors: the queue of the events actor, the app actor, which makes a
-- message of each batch, and the remote actor.
pub mod Stored
pub mod Arrival
mod Examples
use go_gwiot.Prelude.{
  String, ◌≡◌, Bool, refl, sym, ap, ◌∙◌, Option, some, List, [], ◌∷◌, ◌++◌, map, Outcome, ok, ◌>>=◌,
  ◌⊎◌, inl, inr, ok-injective, some-injective, str_eq, if◌then◌else◌, >>=-eq-ok,
}
use mathlib.Core.Path.{subst}
use mathlib.Core.List.{append-nil}
use go_gwiot.Prelude.Bytes.{Bytes}
use go_gwiot.State.Value.{ℤ, Float64, string, Fields, field, end}
use go_gwiot.Events.{EventsActor, EventsIn, prepare}
use go_gwiot.Events.Queue.{received, joined, run, run-queue}
use go_gwiot.Remote.Prepare.{RemoteMsg2, prepare_msg}
use go_gwiot.Remote.Actor as Remote
use go_gwiot.Remote.Actor.{RemoteActor, Output, remote_msg2, send_msg}
use go_gwiot.Remote.Actor.Backup.{Fate, receive-Fate}
use go_gwiot.App.{App, AppOut, events_msg, to_remote, World, receive, message, identified, drop_nil}
use go_gwiot.App.Messages.{report_of, report_text, message-prepare}

-- The list has this element.
abbrev pub Has {ℓ} : {A : Type ℓ} → A → List A → Type ℓ
Has x xs = (l : List _) × (r : List _) × (xs ≡ l ++ x ∷ r)

module _ {ℓ} {A : Type ℓ} where
  Has-cons : (x y : A) (xs : List A) → Has x xs → Has x (y ∷ xs)
  Has-cons x y xs (l, r, e) = (y ∷ l, r, ap (λ t. y ∷ t) e)

  Has-append : (xs ys : List A) (x : A) → Has x (xs ++ ys) → Has x xs ⊎ Has x ys
  Has-append [] ys x h = inr h
  Has-append (y ∷ xs) ys x ([], r, e) = inl ([], xs, ap (λ z. z ∷ xs) (cc (e)))
  Has-append (y ∷ xs) ys x (z ∷ l, r, e) = elim (Has-append xs ys x (l, r, cc (e))) [
    | inl h ↦ inl (Has-cons x y xs h)
    | inr h ↦ inr h
  ]

  Has-append_left : (xs ys : List A) (x : A) → Has x ys → Has x (xs ++ ys)
  Has-append_left [] ys x h = h
  Has-append_left (y ∷ xs) ys x h = Has-cons x y (xs ++ ys) (Has-append_left xs ys x h)

not-Has-nil : {A : Type 0} (x : A) → Has x [] → ⊥
not-Has-nil x ([], r, e) = absurd cc
not-Has-nil x (y ∷ l, r, e) = absurd cc

Has-map : {A B : Type 0} (f : A → B) (x : A) (xs : List A) → Has x xs → Has (f x) (map f xs)
Has-map f x [] h = absurd (not-Has-nil x h)
Has-map f x (y ∷ xs) ([], r, e) = ([], map f xs, ap (λ z. f z ∷ map f xs) (cc (e)))
Has-map f x (y ∷ xs) (z ∷ l, r, e) = Has-cons (f x) (f y) (map f xs) (Has-map f x xs (l, r, cc (e)))

-- An element of the joined batches is in one of them.
Has-joined :
    (x : Fields) (batches : List (List Fields))
    → Has x (joined batches)
    → (batch : List Fields) × Has batch batches × Has x batch
Has-joined x [] h = absurd (not-Has-nil x h)
Has-joined x (b ∷ batches) h = elim (Has-append b (joined batches) x h) [
  | inl first ↦ (b, ([], batches, refl), first)
  | inr later ↦
      let (batch, among, within) = Has-joined x batches later in
      (batch, Has-cons batch b batches among, within)
]

module _ (ms : Fields → Option Bytes) (me : List Fields → Option Bytes) where
  -- A message of the app is handled without a panic, and dealt with as a whole.
  message-Fate :
      (state : Fields) (batch : List Fields) (wr : Remote.World) (ps : RemoteActor) (j k : Bytes)
      → ms (drop_nil state) ≡ some j
      → me batch ≡ some k
      → (ps' : RemoteActor) × (sent : Output) × (Remote.receive wr
            (remote_msg2 (message ms me state batch))
            ps
          ≡ ok (ps', sent))
        × Fate wr ps ps' (report_text wr.quoted_host j k) sent.effects
  unfolding Remote.receive
  message-Fate state batch wr ps j k s e =
      let text = report_text wr.quoted_host j k in
      let done = send_msg wr text ps in
      let ended =
        ap (λ (x : Outcome Bytes). x >>= λ content. ok (send_msg wr content ps))
          (message-prepare ms me wr.quoted_host j k state batch s e) in
      let (content, p, fate) = receive-Fate wr ps done.0 (message ms me state batch) done.1 ended in
      let same = ok-injective (sym p ∙ message-prepare ms me wr.quoted_host j k state batch s e) in
      (done.0, done.1, ended, subst (λ c. Fate wr ps done.0 c done.1.effects) same fate)

module _ (is_whole : Float64 → Bool) (millis : Float64 → ℤ) where
  event-batch :
      (ins : List EventsIn) (act act' : EventsActor) (batches : List (List Fields)) (ev : Fields)
      → run is_whole millis act ins ≡ ok (act', batches)
      → act'.events ≡ []
      → Has ev (received ins)
      → (batch : List Fields) × Has batch batches × Has (prepare is_whole millis ev) batch
  event-batch ins act act' batches ev h q has =
      let all = (run-queue is_whole millis ins act act' batches h).0 in
      let came =
        Has-append_left act.events (map (prepare is_whole millis) (received ins))
          (prepare is_whole millis ev) (Has-map (prepare is_whole millis) ev (received ins) has) in
      Has-joined (prepare is_whole millis ev) batches (
        subst (Has (prepare is_whole millis ev))
          (all ∙ ap (λ l. joined batches ++ l) q ∙ append-nil (joined batches)) came)

  module _ (ms : Fields → Option Bytes) (me : List Fields → Option Bytes) where
    -- An event that the events actor gets, in any sequence of messages that leaves its queue empty, is in
    -- a batch that it sends, renamed and stamped. If the JSON of every state and of every batch can be
    -- made, the app actor makes one message of that batch for the remote actor, which handles it
    -- without a panic. With a connected client that answers the one request to send the text of just
    -- this batch, that request is all that is done. If the client is not connected, so that it is not
    -- asked, or does not answer the one request, the text is put into the database, as the only other
    -- thing that is done, if replays are enabled and there is an open database; otherwise nothing
    -- else is done, and it is dropped.
    pub event-Fate :
        (ins : List EventsIn) (act act' : EventsActor) (batches : List (List Fields)) (ev : Fields)
        (w : World) (app : App) (wr : Remote.World) (ps : RemoteActor) (j : Fields → Bytes)
        (k : List Fields → Bytes)
        → run is_whole millis act ins ≡ ok (act', batches)
        → act'.events ≡ []
        → Has ev (received ins)
        → ((m : Fields) → ms m ≡ some (j m))
        → ((es : List Fields) → me es ≡ some (k es))
        → (batch : List Fields) × Has batch batches
          × Has (prepare is_whole millis ev) batch
          × (state : Fields) × (report_of ms me w app (events_msg batch) ≡ some (state, batch))
          × (app' : App) × (receive ms me w (events_msg batch) app
              ≡ ok (app', to_remote app.pid_remote (message ms me state batch) ∷ []))
          × (ps' : RemoteActor) × (sent : Output) × (Remote.receive wr
                (remote_msg2 (message ms me state batch))
                ps
              ≡ ok (ps', sent))
          × Fate wr ps ps' (report_text wr.quoted_host (j (drop_nil state)) (k batch)) sent.effects
    unfolding receive report_of
    event-Fate ins act act' batches ev w app wr ps j k h q has js es =
        let (batch, among, within) = event-batch ins act act' batches ev h q has in
        let name = if str_eq app.sn_dev "" then w.hostname else app.sn_dev in
        let state = identified ms me w (field "sDv" (string name) end) in
        let (ps', sent, handled, fate) =
          message-Fate ms me state batch wr ps (j (drop_nil state)) (k batch) (js (drop_nil state))
            (es batch) in
        (
          batch,
          among,
          within,
          state,
          refl,
          record app { sn_dev = name },
          refl,
          ps',
          sent,
          handled,
          fate,
        )
