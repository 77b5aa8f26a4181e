-- ===== src/Remote/Prepare.antt =====
-- `prepareMSG` of internal/remote/remote-actor.go: the text that is sent for a message of version 2 is
-- put together from its parts, and that of another version is its data.
use go_gwiot.Prelude.{
  ℕ, ◌<◌, ◌≡◌, refl, ap, Bool, true, false, [], ◌∷◌, ◌++◌, arith, Outcome, ok, panic, ◌>>=◌, ◌==◌,
  ◌↔◌, ◌⊎◌, inl, inr, length,
}
use go_gwiot.Prelude.Bytes.{Bytes, ascii}
use go_gwiot.State.Value.{ℤ, pos, negsuc}

-- The fields of `messages.RemoteMSG2` that the actor reads.
pub record RemoteMsg2 : Type 0 where
  pub state : Bytes
  pub events : Bytes
  pub content : Bytes
  pub version : ℤ

init : Bytes → Bytes
init [] = []
init (x ∷ []) = []
init (x ∷ y ∷ xs) = x ∷ init (y ∷ xs)

-- `b[1 : len(b)-1]`, which panics on fewer than two bytes.
unfoldable pub inner : Bytes → Outcome Bytes
unfolding init
inner [] = panic
inner (x ∷ []) = panic
inner (x ∷ y ∷ xs) = ok (init (y ∷ xs))

abbrev is_version_2 : ℤ → Bool
is_version_2 (pos n) = n == 2
is_version_2 (negsuc n) = false

-- `%q` of `utils.Hostname()` is `quoted_host`.
unfoldable pub prepare_msg : Bytes → RemoteMsg2 → Outcome Bytes
unfolding inner
prepare_msg quoted_host msg = elim (is_version_2 msg.version) [
  | true ↦ do
    state ← inner msg.state
    events ← inner msg.events
    ok (
        ascii "{\"sDv\": "
        ++ quoted_host
        ++ ascii ", "
        ++ state
        ++ ascii ", "
        ++ events
        ++ ascii "}")
  | false ↦ ok msg.content
]

init-append : (s : Bytes) (b : ℕ) → init (s ++ b ∷ []) ≡ s
unfolding init
init-append [] b = refl
init-append (x ∷ []) b = refl
init-append (x ∷ y ∷ s) b = ap (λ l. x ∷ l) (init-append (y ∷ s) b)

inner-brackets : (a b : ℕ) (s : Bytes) → inner (a ∷ s ++ b ∷ []) ≡ ok s
unfolding inner init
inner-brackets a b [] = refl
inner-brackets a b (x ∷ s) = ap ok (init-append (x ∷ s) b)

-- A message of version 2, whose state and events are texts between two bytes each, such as the
-- braces of a JSON object, is sent as the object with the host and what stands between them.
pub prepare_msg-object :
    (quoted_host state events content : Bytes) (a b c d : ℕ)
    → prepare_msg quoted_host (record {
      state = a ∷ state ++ b ∷ [];
      events = c ∷ events ++ d ∷ [];
      content = content;
      version = pos 2;
    })
      ≡ ok (
          ascii "{\"sDv\": "
          ++ quoted_host
          ++ ascii ", "
          ++ state
          ++ ascii ", "
          ++ events
          ++ ascii "}")
unfolding prepare_msg
prepare_msg-object quoted_host state events content a b c d =
    rw (inner-brackets a b state, inner-brackets c d events) refl

inner-panic : (s : Bytes) → (inner s ≡ panic) ↔ (length s < 2)
unfolding inner
inner-panic [] = (λ e. omega arith, λ h. refl)
inner-panic (x ∷ []) = (λ e. omega arith, λ h. refl)
inner-panic (x ∷ y ∷ xs) = (λ e. absurd cc, λ h. absurd (omega (arith, h)))

-- A message of version 2 makes `prepareMSG` panic exactly when its state or its events have fewer
-- than two bytes, as when they are missing.
pub prepare_msg-panic_iff :
    (quoted_host : Bytes) (msg : RemoteMsg2)
    → msg.version ≡ pos 2
    → (prepare_msg quoted_host msg ≡ panic) ↔ ((length msg.state < 2) ⊎ (length msg.events < 2))
unfolding prepare_msg
prepare_msg-panic_iff quoted_host msg v =
    rw v (cases (inner msg.state) refl (inner msg.events) refl)
  where
    object : Bytes → Bytes → Bytes
    object s e =
        ascii "{\"sDv\": " ++ quoted_host ++ ascii ", " ++ s ++ ascii ", " ++ e ++ ascii "}"

    cases :
        (s : Outcome Bytes)
        → inner msg.state ≡ s
        → (e : Outcome Bytes) → inner msg.events ≡ e
        → ((do x ← inner msg.state; y ← inner msg.events; ok (object x y)) ≡ panic)
          ↔ ((length msg.state < 2) ⊎ (length msg.events < 2))
    cases panic p e q = rw p (λ h. inl ((inner-panic msg.state).0 p), λ h. refl)
    cases (ok s) p panic q = rw (p, q) (λ h. inr ((inner-panic msg.events).0 q), λ h. refl)
    cases (ok s) p (ok e) q =
        rw (p, q)
          (
            λ h. absurd cc,
            λ h. elim h [
              | inl l ↦ let z = (inner-panic msg.state).1 l in cc
              | inr l ↦ let z = (inner-panic msg.events).1 l in cc
            ],
          )
