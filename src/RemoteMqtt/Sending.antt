-- ===== src/RemoteMqtt/Sending.antt =====
-- When a message counts as sent.
use go_gwiot.Prelude.{
  ℕ, zero, suc, ◌+◌, ◌<◌, ◌≡◌, refl, sym, ap, ◌∙◌, Bool, true, false, ◌||◌, not, List, [], ◌∷◌,
  ◌++◌, arith, ◌↔◌, ◌≤◌, ◌&&◌, ◌==◌, ==_iff, ◌⊎◌, inl, inr, if◌then◌else◌, Bool-cases,
}
use mathlib.Core.Path.{ap₂}
use go_gwiot.Prelude.Bytes.{Bytes}
use go_gwiot.RemoteMqtt.{
  RemoteActor, Wait, pending, token_error, published, send_data, RemoteOut, publish, respond_ack,
  respond_error, World, wait_token, send_msg, topic_of, receive, answer,
}

-- The token is done without an error in a round before `n`, and in every round before that the wait
-- was too short.
abbrev pub IsPublished : ℕ → (ℕ → Wait) → Type 0
IsPublished n waits =
    (i : ℕ) × (i < n) × (waits i ≡ published) × ((j : ℕ) → j < i → waits j ≡ pending)

-- From round `i` on, for `n` rounds.
abbrev PublishedFrom : ℕ → ℕ → (ℕ → Wait) → Type 0
PublishedFrom n i waits =
    (k : ℕ) × (i ≤ k)
    × (k < i + n)
    × (waits k ≡ published)
    × ((j : ℕ) → i ≤ j → j < k → waits j ≡ pending)

later_round : (i j : ℕ) → i ≤ j → (j ≡ i) ⊎ (suc i ≤ j)
later_round i j l = elim (Bool-cases (j == i)) [
  | inl e ↦ inl ((==_iff j i).0 e)
  | inr e ↦ inr (ground arith)
]

wait_token-from :
    (n i : ℕ) (waits : ℕ → Wait) → (wait_token n i waits ≡ true) ↔ PublishedFrom n i waits
unfolding wait_token
wait_token-from zero i waits = (λ e. cc, λ (k, f, l, q, b). absurd (omega (arith, f, l)))
wait_token-from (suc n) i waits = dispatched (waits i) refl (wait_token-from n (suc i) waits)
  where
    dispatched :
        (x : Wait)
        → waits i ≡ x
        → (wait_token n (suc i) waits ≡ true) ↔ PublishedFrom n (suc i) waits
        → ((elim x [
          | pending ↦ wait_token n (suc i) waits
          | token_error ↦ false
          | published ↦ true
        ])
            ≡ true)
          ↔ PublishedFrom (suc n) i waits
    dispatched pending q rest = (
      λ e.
          let (k, f, l, p, b) = rest.0 e in
          (
            k,
            omega (arith, f),
            omega (arith, l),
            p,
            λ j g h. elim (later_round i j g) [
              | inl same ↦ ap waits same ∙ q
              | inr after ↦ b j after h
            ],
          ),
      λ (k, f, l, p, b). elim (later_round i k f) [
        | inl same ↦ absurd (let no = sym p ∙ ap waits same ∙ q in cc)
        | inr after ↦ rest.1 (k, after, omega (arith, l), p, λ j g h. b j (omega (arith, g)) h)
      ],
    )
    dispatched token_error q rest = (
      λ e. cc,
      λ (k, f, l, p, b). elim (later_round i k f) [
        | inl same ↦ absurd (let no = sym p ∙ ap waits same ∙ q in cc)
        | inr after ↦ absurd (let no = sym q ∙ b i (omega arith) after in cc)
      ],
    )
    dispatched published q rest = (
      λ e. (i, omega arith, omega arith, q, λ j g h. absurd (omega (arith, g, h))),
      λ found. refl,
    )

wait_token-IsPublished :
    (n : ℕ) (waits : ℕ → Wait) → (wait_token n 0 waits ≡ true) ↔ IsPublished n waits
wait_token-IsPublished n waits = (
  λ e.
      let (k, f, l, p, b) = (wait_token-from n 0 waits).0 e in
      (k, omega (arith, l), p, λ j h. b j (omega arith) h),
  λ (k, l, p, b).
      (wait_token-from n 0 waits).1 (k, omega arith, omega (arith, l), p, λ j g h. b j h),
)

pub answer-one :
    (w : World) (sent : Bool)
    → w.has_sender ≡ true
    → answer w sent ≡ (if sent then respond_ack else respond_error) ∷ []
answer-one w sent s =
    ap (λ b. if b then (if sent then respond_ack else respond_error) ∷ [] else []) s

-- A request to send that somebody waits for is answered exactly once. The answer is the
-- acknowledgement if and only if there is a client with an open connection, and its token is done
-- without an error within ten waits; the message has then been published once, under the topic of
-- the device. Every other answer is an error, but the message may have been published all the same.
pub receive-send_data :
    (w : World) (ps : RemoteActor) (content : Bytes)
    → w.has_sender ≡ true
    → let out = (receive w (send_data content) ps).1 in
      ((out ≡ publish (topic_of w ps.test) content ∷ respond_ack ∷ [])
        × (ps.has_client ≡ true)
        × (w.is_connection_open ≡ true)
        × IsPublished 10 w.waits)
      ⊎ ((out ≡ publish (topic_of w ps.test) content ∷ respond_error ∷ [])
          × ¬ IsPublished 10 w.waits)
      ⊎ ((out ≡ respond_error ∷ []) × ((ps.has_client && w.is_connection_open) ≡ false))
unfolding receive send_msg
receive-send_data w ps content s =
    answered ps.has_client w.is_connection_open (wait_token 10 0 w.waits) refl refl refl
  where
    answered :
        (c o t : Bool)
        → ps.has_client ≡ c
        → w.is_connection_open ≡ o
        → wait_token 10 0 w.waits ≡ t
        → let r =
            if◌then◌else◌ {A = Bool × List RemoteOut}
              (not c || not o)
              (false, [])
              (t, publish (topic_of w ps.test) content ∷ []) in
          let out = r.1 ++ answer w r.0 in
          ((out ≡ publish (topic_of w ps.test) content ∷ respond_ack ∷ [])
            × (ps.has_client ≡ true)
            × (w.is_connection_open ≡ true)
            × IsPublished 10 w.waits)
          ⊎ ((out ≡ publish (topic_of w ps.test) content ∷ respond_error ∷ [])
              × ¬ IsPublished 10 w.waits)
          ⊎ ((out ≡ respond_error ∷ []) × ((ps.has_client && w.is_connection_open) ≡ false))
    answered true true true c o t = inl (
      ap (λ l. publish (topic_of w ps.test) content ∷ l) (answer-one w true s),
      c,
      o,
      (wait_token-IsPublished 10 w.waits).0 t,
    )
    answered true true false c o t = inr (
        inl (
          ap (λ l. publish (topic_of w ps.test) content ∷ l) (answer-one w false s),
          λ p. let no = sym t ∙ (wait_token-IsPublished 10 w.waits).1 p in cc,
        ))
    answered true false t c o q = inr (inr (answer-one w false s, ap₂ ◌&&◌ c o))
    answered false o t c q r =
        inr (inr (answer-one w false s, ap (λ b. b && w.is_connection_open) c))
