-- ===== src/PubSub/Synced.antt =====
-- The routes of the client against the map of subscriptions.
use go_gwiot.Prelude.{
  ℕ, suc, String, ◌≡◌, refl, sym, ap, ◌∙◌, Bool, true, false, Option, none, some, List, [], ◌∷◌,
  Outcome, ok, str_eq, eq_iff, arith, if◌then◌else◌, inl, inr, Bool-cases,
}
use go_gwiot.Prelude.Bytes.{Bytes}
use go_gwiot.PubSub.{
  Subscription, get_topic, put_topic, Routes, PubSub, started, TokenWait, subscribe_topic,
  subscribe_all, connects, start, receive, handled, deliver,
}

pub get-put_topic :
    {A : Type 0} (m : List (String × A)) (k j : String) (v : A)
    → get_topic (put_topic m k v) j ≡ (if str_eq k j then some v else get_topic m j)
unfolding get_topic put_topic
get-put_topic [] k j v = refl
get-put_topic ((i, w) ∷ m) k j v =
    ground (arith, eq_iff k j, eq_iff i k, eq_iff i j, get-put_topic m k j v)

-- The topics of the entries are distinct.
abbrev pub IsMap : {A : Type 0} → List (String × A) → Type 0
IsMap [] = Unit
IsMap ((k, v) ∷ m) = (get_topic m k ≡ none) × IsMap m

-- `order` is one iteration over the map.
abbrev pub Iterates : {A : Type 0} → List (String × A) → List (String × A) → Type 0
Iterates order m = IsMap order × ((k : String) → get_topic order k ≡ get_topic m k)

abbrev put_all : {A : Type 0} → List (String × A) → List (String × A) → List (String × A)
unfolding put_topic
put_all [] m = m
put_all ((k, v) ∷ order) m = put_all order (put_topic m k v)

abbrev or_else : {A : Type 0} → Option A → Option A → Option A
or_else none d = d
or_else (some v) d = some v

or_else-none : {A : Type 0} (a : Option A) → or_else a none ≡ a
or_else-none none = refl
or_else-none (some v) = refl

or_else-put :
    {A : Type 0} (order m : List (String × A)) (k j : String) (v : A)
    → get_topic order k ≡ none
    → or_else (get_topic order j) (get_topic (put_topic m k v) j)
      ≡ or_else (if str_eq k j then some v else get_topic order j) (get_topic m j)
or_else-put order m k j v u = elim (Bool-cases (str_eq k j)) [
  | inl e ↦
      let missing : get_topic order j ≡ none = ap (get_topic order) (sym ((eq_iff k j).0 e)) ∙ u in
      rw (get-put_topic m k j v, e, missing) refl
  | inr e ↦ rw (get-put_topic m k j v, e) refl
]

get-put_all :
    {A : Type 0} (order m : List (String × A)) (j : String)
    → IsMap order
    → get_topic (put_all order m) j ≡ or_else (get_topic order j) (get_topic m j)
unfolding get_topic put_topic
get-put_all [] m j u = refl
get-put_all ((k, v) ∷ order) m j u =
    get-put_all order (put_topic m k v) j u.1 ∙ or_else-put order m k j v u.0

-- A call of `Subscribe`: topic, subscription, whether the client is connected, and the wait.
abbrev pub Call : Type 0 → Type 0
Call M = String × Subscription M × Bool × TokenWait

module _ {M : Type 0} where
  -- The client of a state.
  abbrev routed : PubSub M → Routes M → PubSub M
  routed ps m = record ps { client = some m }

  subscribe_all-put_all :
      (waits : ℕ → TokenWait) (order m : Routes M) (ps : PubSub M)
      → subscribe_all waits order (routed ps m) ≡ routed ps (put_all order m)
  unfolding subscribe_all put_topic
  subscribe_all-put_all waits [] m ps = refl
  subscribe_all-put_all waits ((topic, subs) ∷ order) m ps =
      subscribe_all-put_all (λ i. waits (suc i)) order (put_topic m topic subs) ps

  -- The client is there, and has the latest subscription of each topic.
  abbrev IsSynced : PubSub M → Type 0
  IsSynced ps =
      (m : Routes M) × (ps.client ≡ some m)
      × ((k : String) → get_topic m k ≡ get_topic ps.subscriptions k)

  start-IsSynced :
      (w : TokenWait) (waits : ℕ → TokenWait) (order : Routes M) (ps : PubSub M)
      → Iterates order ps.subscriptions
      → connects w ≡ true
      → IsSynced (start w waits order ps).0
        × ((start w waits order ps).0.subscriptions ≡ ps.subscriptions)
  unfolding start put_topic get_topic
  start-IsSynced w waits order ps i c =
      let ps' = record ps { has_ctx = true } in
      let filled = subscribe_all-put_all waits order [] ps' in
      rw (c, filled)
        (
          (
            put_all order [],
            refl,
            λ k. get-put_all order [] k i.0 ∙ or_else-none (get_topic order k) ∙ i.1 k,
          ),
          refl,
        )

  unfoldable pub call : Call M → PubSub M → PubSub M × Outcome Bool
  call c ps = subscribe_topic c.2 c.3 c.0 c.1 ps

  unfoldable pub calls : List (Call M) → PubSub M → PubSub M
  unfolding call
  calls [] ps = ps
  calls (c ∷ cs) ps = calls cs (call c ps).0

  -- No call panics or returns an error.
  abbrev pub Accepted : List (Call M) → PubSub M → Type 0
  Accepted [] ps = Unit
  Accepted (c ∷ cs) ps = ((call c ps).1 ≡ ok false) × Accepted cs (call c ps).0

  -- Who has last subscribed to the topic.
  abbrev pub latest : List (Call M) → String → Option (Subscription M) → Option (Subscription M)
  latest [] topic before = before
  latest (c ∷ cs) topic before = latest cs topic (if str_eq c.0 topic then some c.1 else before)

  call-IsSynced :
      (c : Call M) (ps : PubSub M)
      → IsSynced ps
      → (call c ps).1 ≡ ok false
      → IsSynced (call c ps).0
        × ((k : String)
            → get_topic (call c ps).0.subscriptions k
              ≡ (if str_eq c.0 k then some c.1 else get_topic ps.subscriptions k))
  unfolding call subscribe_topic
  call-IsSynced (topic, subs, conn, wait) ps (m, e, same) h = elim (Bool-cases conn) [
    | inl c ↦
        rw (e, c)
          (
            (
              put_topic m topic subs,
              refl,
              λ k.
                  get-put_topic m topic k subs
                  ∙ ap (λ o. if str_eq topic k then some subs else o) (same k)
                  ∙ sym (get-put_topic ps.subscriptions topic k subs),
            ),
            λ k. get-put_topic ps.subscriptions topic k subs,
          )
    | inr c ↦ absurd (let no : ok true ≡ ok false = rw (e, c) at h in cc)
  ]

  calls-deliver :
      (cs : List (Call M)) (ps : PubSub M) (topic : String) (payload : Bytes)
      → IsSynced ps
      → Accepted cs ps
      → deliver topic payload (calls cs ps)
        ≡ handled payload (latest cs topic (get_topic ps.subscriptions topic))
  unfolding calls deliver
  calls-deliver [] ps topic payload (m, e, same) a = rw (e) (ap (handled payload) (same topic))
  calls-deliver (c ∷ cs) ps topic payload s a =
      let (s', put) = call-IsSynced c ps s a.0 in
      calls-deliver cs (call c ps).0 topic payload s' a.1
      ∙ ap (λ o. handled payload (latest cs topic o)) (put topic)

  -- After a start whose client connects, over the subscriptions that were there in any order, and then
  -- any calls of `Subscribe` of which none fails, a message on any topic goes to whoever has last
  -- subscribed to it, before the start or after it, as its parser makes it of the payload; and to no
  -- one if there is no such subscription or the parser makes nothing of it. The waits for the tokens
  -- do not matter, nor does what happened before the start.
  pub calls-latest :
      (w : TokenWait) (waits : ℕ → TokenWait) (order : Routes M) (ps : PubSub M)
      (cs : List (Call M)) (topic : String) (payload : Bytes)
      → Iterates order ps.subscriptions
      → connects w ≡ true
      → Accepted cs (receive w waits (started order) ps).0
      → deliver topic payload (calls cs (receive w waits (started order) ps).0)
        ≡ handled payload (latest cs topic (get_topic ps.subscriptions topic))
  unfolding receive
  calls-latest w waits order ps cs topic payload i c a =
      let (s, kept) = start-IsSynced w waits order ps i c in
      calls-deliver cs (start w waits order ps).0 topic payload s a
      ∙ ap (λ m. handled payload (latest cs topic (get_topic m topic))) kept
