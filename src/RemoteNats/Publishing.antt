-- ===== src/RemoteNats/Publishing.antt =====
-- What becomes of a message that is to be sent.
use go_gwiot.Prelude.{
  ℕ, zero, suc, ◌+◌, ◌<◌, ◌≡◌, refl, ap, ◌∙◌, Bool, true, false, ◌&&◌, ◌||◌, not, List, [], ◌∷◌,
  ◌++◌, arith, ◌⊎◌, inl, inr, ok, >>=-eq-ok, ok-injective, if◌then◌else◌,
}
use go_gwiot.Prelude.Bytes.{Bytes}
use go_gwiot.Remote.Prepare.{RemoteMsg2, prepare_msg}
use mathlib.Core.Path.{ap₂, subst}
use go_gwiot.RemoteNats.Kept.{after-kept}
use go_gwiot.RemoteNats.{
  RemoteActor, World, RemoteIn, remote_msg2, RemoteOut, publish, close_conn, self_reconnect, older,
  topic_of, publish_msg, send_msg, backup, send_data, receive, after, run, after_send, is_connected,
  new_remote, disable_replay,
}

abbrev pub copies : ℕ → RemoteOut → List RemoteOut
copies zero msg = []
copies (suc n) msg = msg ∷ copies n msg

-- From round `i` on, for `n` rounds: the first success, or none.
abbrev Tried : RemoteOut → ℕ → ℕ → (ℕ → Bool) → Bool × List RemoteOut → Type 0
Tried msg n i acks r =
    ((r.0 ≡ true)
      × (k : ℕ) × (k < n)
      × (acks (i + k) ≡ true)
      × ((j : ℕ) → j < k → acks (i + j) ≡ false)
      × (r.1 ≡ copies (suc k) msg))
    ⊎ ((r.0 ≡ false) × ((j : ℕ) → j < n → acks (i + j) ≡ false) × (r.1 ≡ copies n msg))

fails_before :
    (i k : ℕ) (acks : ℕ → Bool)
    → acks i ≡ false
    → ((j : ℕ) → j < k → acks (suc i + j) ≡ false)
    → (j : ℕ) → j < suc k
    → acks (i + j) ≡ false
fails_before i k acks e f zero l = ap acks (omega arith) ∙ e
fails_before i k acks e f (suc j) l = ap acks (omega arith) ∙ f j (omega (arith, l))

publish_msg-Tried :
    (msg : RemoteOut) (n i : ℕ) (acks : ℕ → Bool) → Tried msg n i acks (publish_msg msg n i acks)
unfolding publish_msg
publish_msg-Tried msg zero i acks = inr (refl, λ j l. absurd (omega (arith, l)), refl)
publish_msg-Tried msg (suc n) i acks =
    round (acks i) refl (publish_msg msg n (suc i) acks) (publish_msg-Tried msg n (suc i) acks)
  where
    round :
        (b : Bool)
        → acks i ≡ b
        → (rest : Bool × List RemoteOut) → Tried msg n (suc i) acks rest
        → Tried msg
            (suc n)
            i
            acks
            (elim b [ true ↦ (true, msg ∷ []) | false ↦ (rest.0, msg ∷ rest.1) ])
    round true e rest t =
        inl
          (refl, 0, omega arith, ap acks (omega arith) ∙ e, λ j l. absurd (omega (arith, l)), refl)
    round false e rest (inl (s, k, l, a, f, o)) = inl (
      s,
      suc k,
      omega (arith, l),
      ap acks (omega arith) ∙ a,
      fails_before i k acks e f,
      ap (λ l. msg ∷ l) o,
    )
    round false e rest (inr (s, f, o)) = inr (s, fails_before i n acks e f, ap (λ l. msg ∷ l) o)

run-has_db :
    (steps : List (World × RemoteIn)) (ps : RemoteActor) → (run steps ps).has_db ≡ ps.has_db
unfolding run
run-has_db [] ps = refl
run-has_db ((w, msg) ∷ steps) ps = run-has_db steps (after w msg ps) ∙ (after-kept w msg ps).0

-- What follows an error while there is no database.
abbrev pub retry_of : World → RemoteActor → List RemoteOut
retry_of w ps = if older w.clock 40000000000 ps.last_reconnect then self_reconnect ∷ [] else []

backup-none :
    (w : World) (ps : RemoteActor) (content : Bytes)
    → ps.has_db ≡ false
    → backup w ps content ≡ (ps, retry_of w ps)
unfolding backup
backup-none w ps content h = ground arith

-- The message is published until the service acknowledges it, at most ten times.
abbrev pub IsSent : World → RemoteActor → Bytes → List RemoteOut → Type 0
IsSent w ps content out =
    (k : ℕ) × (k < 10)
    × (w.acks k ≡ true)
    × ((j : ℕ) → j < k → w.acks j ≡ false)
    × (out ≡ copies (suc k) (publish (topic_of w ps.test) w.hostname content))

-- It is not published, or ten times with no acknowledgement; nothing keeps it.
abbrev pub IsLost : World → RemoteActor → Bytes → List RemoteOut → Type 0
IsLost w ps content out =
    ((out ≡ retry_of w ps) × ((ps.has_conn && w.is_connected) ≡ false))
    ⊎ ((out ≡ close_conn ∷ retry_of w ps) × ((w.still_connected && w.has_stream) ≡ false))
    ⊎ ((out
          ≡ copies 10 (publish (topic_of w ps.test) w.hostname content)
            ++ close_conn ∷ retry_of w ps)
        × ((j : ℕ) → j < 10 → w.acks j ≡ false))

-- How `sendMSG` ends.
abbrev Ends : World → RemoteActor → Bytes → Bool × List RemoteOut → Type 0
Ends w ps content r =
    ((r.0 ≡ true) × IsSent w ps content r.1)
    ⊎ ((r.0 ≡ false) × (r.1 ≡ []) × ((w.still_connected && w.has_stream) ≡ false))
    ⊎ ((r.0 ≡ false)
        × (r.1 ≡ copies 10 (publish (topic_of w ps.test) w.hostname content))
        × ((j : ℕ) → j < 10 → w.acks j ≡ false))

rounds-Ends :
    (w : World) (ps : RemoteActor) (content : Bytes) (r : Bool × List RemoteOut)
    → Tried (publish (topic_of w ps.test) w.hostname content) 10 0 w.acks r
    → Ends w ps content r
rounds-Ends w ps content r (inl (s, k, l, a, f, o)) =
    inl (s, (k, l, ap w.acks (omega arith) ∙ a, λ j h. ap w.acks (omega arith) ∙ f j h, o))
rounds-Ends w ps content r (inr (s, f, o)) =
    inr (inr (s, o, λ j h. ap w.acks (omega arith) ∙ f j h))

send_msg-Ends :
    (w : World) (ps : RemoteActor) (content : Bytes) → Ends w ps content (send_msg w ps content)
unfolding send_msg
send_msg-Ends w ps content =
    ended w.still_connected w.has_stream refl refl
      (publish_msg (publish (topic_of w ps.test) w.hostname content) 10 0 w.acks)
      (rounds-Ends w ps content _
        (publish_msg-Tried (publish (topic_of w ps.test) w.hostname content) 10 0 w.acks))
  where
    ended :
        (c s : Bool)
        → w.still_connected ≡ c
        → w.has_stream ≡ s
        → (r : Bool × List RemoteOut) → Ends w ps content r
        → Ends w ps content
            (if◌then◌else◌ {A = Bool × List RemoteOut} (not c || not s) (false, []) r)
    ended true true c s r e = e
    ended true false c s r e = inr (inl (refl, refl, ap₂ ◌&&◌ c s))
    ended false x c s r e = inr (inl (refl, refl, ap (λ b. b && w.has_stream) c))

-- The state stays, and the message is sent or lost.
abbrev pub Fate : World → RemoteActor → Bytes → RemoteActor × List RemoteOut → Type 0
Fate w ps content r = (r.0 ≡ ps) × (IsSent w ps content r.1 ⊎ IsLost w ps content r.1)

after_send-Fate :
    (w : World) (ps : RemoteActor) (content : Bytes) (r : Bool × List RemoteOut)
    → ps.has_db ≡ false
    → Ends w ps content r
    → Fate w ps content (after_send w ps content r)
unfolding after_send
after_send-Fate w ps content (true, out) h (inl (s, sent)) = (refl, inl sent)
after_send-Fate w ps content (true, out) h (inr (inl (s, o, c))) = absurd cc
after_send-Fate w ps content (true, out) h (inr (inr (s, o, f))) = absurd cc
after_send-Fate w ps content (false, out) h (inl (s, sent)) = absurd cc
after_send-Fate w ps content (false, out) h (inr (inl (s, o, c))) =
    rw (backup-none w ps content h, o) (refl, inr (inr (inl (refl, c))))
after_send-Fate w ps content (false, out) h (inr (inr (s, o, f))) =
    rw (backup-none w ps content h, o) (refl, inr (inr (inr (refl, f))))

send_data-Fate :
    (w : World) (ps : RemoteActor) (content : Bytes)
    → ps.has_db ≡ false
    → Fate w ps content (send_data w ps content)
unfolding send_data
send_data-Fate w ps content h =
    tried (is_connected w ps) refl (after_send w ps content (send_msg w ps content))
      (after_send-Fate w ps content (send_msg w ps content) h (send_msg-Ends w ps content))
  where
    tried :
        (c : Bool)
        → is_connected w ps ≡ c
        → (r : RemoteActor × List RemoteOut) → Fate w ps content r
        → Fate w ps content (if not c then backup w ps content else r)
    tried true e r f = f
    tried false e r f = rw (backup-none w ps content h) (refl, inr (inl (refl, e)))

-- The remote actor over NATS never keeps a message. Made by `NewRemote`, with or without the replay,
-- and after any messages, panics included, a message that it handles without a panic is either
-- published until the first acknowledgement, at most ten times; or lost. A lost message is not
-- published at all (there is no open connection, or no stream), or ten times with an error each. The
-- connection, if there was one, is then closed, and the actor sends itself `reconnectRemote` if the
-- last attempt to connect is older than 40 seconds. Nothing else happens, and its state stays.
pub run-Fate :
    (test disable : Bool) (steps : List (World × RemoteIn)) (w : World) (msg : RemoteMsg2)
    (ps' : RemoteActor) (out : List RemoteOut)
    → receive w (remote_msg2 msg) (run steps (disable_replay disable (new_remote test)))
      ≡ ok (ps', out)
    → let ps = run steps (disable_replay disable (new_remote test)) in
      (content : Bytes) × (prepare_msg w.quoted_host msg ≡ ok content)
      × Fate w ps content (ps', out)
unfolding receive disable_replay new_remote
run-Fate test disable steps w msg ps' out h =
    let ps = run steps (disable_replay disable (new_remote test)) in
    let (content, e, r) = >>=-eq-ok (prepare_msg w.quoted_host msg) _ h in
    let f =
      send_data-Fate w ps content (run-has_db steps (disable_replay disable (new_remote test))) in
    (content, e, subst (Fate w ps content) (ok-injective r) f)
