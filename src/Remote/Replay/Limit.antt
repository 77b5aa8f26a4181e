-- ===== src/Remote/Replay/Limit.antt =====
-- How much one replay sends, and that a replay with a client that answers sends everything.
use go_gwiot.Prelude.{
  ℕ, suc, ◌+◌, ◌≤◌, ◌≡◌, refl, sym, ap, ◌∙◌, true, false, some, List, [], ◌∷◌, ◌++◌, arith, ltb,
  length, ◌<◌, ltb→lt, lt→ltb, Bool-cases, inl, inr, All,
}
use mathlib.Core.List.{append-nil, append_assoc}
use go_gwiot.State.Value.{ℤ}
use go_gwiot.Remote.Numbers.{parse_int}
use go_gwiot.Remote.Replay.{
  acked, Effect, send_data, update, update_async, delete_without_response, Row, Setting, Replay,
  is_old, deleted, query, send_row, replay_rows,
}
use go_gwiot.Remote.Replay.Rounds.{
  Handled, left_alone, refused, malformed, archived, delivered, Round, query-Round,
}

-- The requests to the client.
abbrev pub sends : List Effect → ℕ
sends [] = 0
sends (send_data el reply ∷ es) = suc (sends es)
sends (update id el db coll ∷ es) = sends es
sends (update_async id el db coll ∷ es) = sends es
sends (delete_without_response id db coll ∷ es) = sends es

sends-append : (xs ys : List Effect) → sends (xs ++ ys) ≡ sends xs + sends ys
sends-append [] ys = omega arith
sends-append (send_data el reply ∷ es) ys = omega (arith, sends-append es ys)
sends-append (update id el db coll ∷ es) ys = sends-append es ys
sends-append (update_async id el db coll ∷ es) ys = sends-append es ys
sends-append (delete_without_response id db coll ∷ es) ys = sends-append es ys

sends-Handled : {s : Setting} {row : Row} (es : List Effect) → Handled s row es → sends es ≤ 1
sends-Handled _ left_alone = omega arith
sends-Handled _ (refused c reply q) = omega arith
sends-Handled _ (malformed p) = omega arith
sends-Handled _ (archived tid p o) = omega arith
sends-Handled _ (delivered c q) = omega arith

sends-Round :
    (s : Setting) (row : Row) (r r' : Replay)
    → Round s row r r'
    → sends r.effects ≤ r.count
    → r.count ≤ 31
    → (sends r'.effects ≤ r'.count) × (r'.count ≤ 31)
sends-Round s row r r' rd l b =
    let total : sends r'.effects ≡ sends r.effects + sends rd.added =
      ap sends rd.effects ∙ sends-append r.effects rd.added in
    elim rd.limit [
      | inl (e, same) ↦
          let nothing : sends rd.added ≡ 0 = ap sends e in
          (omega (arith, total, nothing, same, l), omega (arith, same, b))
      | inr (below, next) ↦ (
        omega (arith, total, sends-Handled rd.added rd.handled, next, l),
        omega (arith, below, next),
      )
    ]

-- Whatever rows arrive, one replay asks the client to send at most 31 messages, when it starts with
-- a count of what it has sent.
pub replay_rows-limit :
    (s : Setting) (rows : List Row) (r : Replay)
    → sends r.effects ≤ r.count
    → r.count ≤ 31
    → sends (replay_rows s rows r).effects ≤ 31
unfolding replay_rows
replay_rows-limit s [] r l b = omega (arith, l, b)
replay_rows-limit s (row ∷ rows) r l b =
    let (l', b') = sends-Round s row r (query s row r).0 (query-Round s row r) l b in
    replay_rows-limit s rows (query s row r).0 l' b'

-- A row that a connected client can be offered, and acknowledges.
abbrev pub IsSendable : Setting → Row → Type 0
IsSendable s row =
    (tid : ℤ) × (parse_int row.id ≡ some tid)
    × (is_old s.retry_days row.now tid ≡ false)
    × (row.reply ≡ acked)

-- Each row sent, and then deleted.
abbrev pub sent_in_order : List Row → List Effect
sent_in_order [] = []
sent_in_order (row ∷ rows) = send_data row.el acked ∷ deleted row.id ∷ sent_in_order rows

after_sending : Row → Replay → Replay
after_sending row r = record {
  count = suc r.count;
  retry_flag = r.retry_flag;
  has_sent = true;
  effects = r.effects ++ send_data row.el acked ∷ deleted row.id ∷ [];
}

query-sendable :
    (s : Setting) (row : Row) (r : Replay)
    → s.is_connected ≡ true
    → IsSendable s row
    → r.count ≤ 30
    → (query s row r).0 ≡ after_sending row r
unfolding query send_row after_sending
query-sendable s row r c (tid, p, o, q) l =
    let below : ltb 30 r.count ≡ false = ground arith in rw (below, p, o, c, q) refl

-- Up to 31 records whose identifiers are times within the days of the replay are all sent, in the
-- order in which they arrive, and each is deleted after it, if the client is connected and
-- acknowledges them; the replay does not ask to be run again.
pub replay_rows-sent_in_order :
    (s : Setting) (rows : List Row) (r : Replay)
    → s.is_connected ≡ true
    → All (IsSendable s) rows
    → r.count + length rows ≤ 31
    → ((replay_rows s rows r).effects ≡ r.effects ++ sent_in_order rows)
      × ((replay_rows s rows r).retry_flag ≡ r.retry_flag)
unfolding replay_rows after_sending
replay_rows-sent_in_order s [] r c a l = (sym (append-nil r.effects), refl)
replay_rows-sent_in_order s (row ∷ rows) r c (a, more) l =
    let here = query-sendable s row r c a (omega (arith, l)) in
    let rest = replay_rows-sent_in_order s rows (after_sending row r) c more (omega (arith, l)) in
    rw (here, replay_rows)
      (
        rest.0
            ∙ append_assoc r.effects (send_data row.el acked ∷ deleted row.id ∷ [])
                (sent_in_order rows),
        rest.1,
      )

query-sticky :
    (s : Setting) (row : Row) (r : Replay)
    → r.retry_flag ≡ true
    → (query s row r).0.retry_flag ≡ true
unfolding query send_row
query-sticky s row r h = ground arith

replay_rows-sticky :
    (s : Setting) (rows : List Row) (r : Replay)
    → r.retry_flag ≡ true
    → (replay_rows s rows r).retry_flag ≡ true
unfolding replay_rows
replay_rows-sticky s [] r h = h
replay_rows-sticky s (row ∷ rows) r h =
    replay_rows-sticky s rows (query s row r).0 (query-sticky s row r h)

query-over :
    (s : Setting) (row : Row) (r : Replay) → 30 < r.count → (query s row r).0.retry_flag ≡ true
unfolding query
query-over s row r h = rw (lt→ltb 30 r.count h) refl

-- With more such records than one replay sends, the replay asks to be run again.
pub replay_rows-more :
    (s : Setting) (rows : List Row) (r : Replay)
    → s.is_connected ≡ true
    → All (IsSendable s) rows
    → r.count ≤ 31
    → 31 < r.count + length rows
    → (replay_rows s rows r).retry_flag ≡ true
unfolding replay_rows after_sending
replay_rows-more s [] r c a l h = absurd (omega (arith, l, h))
replay_rows-more s (row ∷ rows) r c (a, more) l h = elim (Bool-cases (ltb 30 r.count)) [
  | inl e ↦ replay_rows-sticky s rows (query s row r).0 (query-over s row r (ltb→lt 30 r.count e))
  | inr e ↦
      let below : r.count ≤ 30 = ground arith in
      rw (query-sendable s row r c a below, replay_rows)
        (replay_rows-more s rows (after_sending row r) c more (omega (arith, below))
          (omega (arith, h)))
]

replay_rows-append :
    (s : Setting) (xs ys : List Row) (r : Replay)
    → replay_rows s (xs ++ ys) r ≡ replay_rows s ys (replay_rows s xs r)
unfolding replay_rows
replay_rows-append s [] ys r = refl
replay_rows-append s (x ∷ xs) ys r = replay_rows-append s xs ys (query s x r).0

-- What is done is never undone, and a row counts once at most.
replay_rows-grows :
    (s : Setting) (rows : List Row) (r : Replay)
    → ((es : List Effect) × ((replay_rows s rows r).effects ≡ r.effects ++ es))
      × ((replay_rows s rows r).count ≤ r.count + length rows)
unfolding replay_rows
replay_rows-grows s [] r = (([], sym (append-nil r.effects)), omega arith)
replay_rows-grows s (row ∷ rows) r =
    let round = query-Round s row r in
    let ((es, e), c) = replay_rows-grows s rows (query s row r).0 in
    let counted : (query s row r).0.count ≤ suc r.count = elim round.limit [
      | inl (none, same) ↦ omega (arith, same)
      | inr (below, next) ↦ omega (arith, next)
    ] in
    (
      (
        round.added ++ es,
        e ∙ ap (λ l. l ++ es) round.effects ∙ append_assoc r.effects round.added es,
      ),
      omega (arith, c, counted),
    )

-- A record that can be sent, after others that do not reach the limit: it is sent and deleted, whatever
-- became of the others.
pub replay_rows-sent :
    (s : Setting) (before after : List Row) (row : Row) (r : Replay)
    → s.is_connected ≡ true
    → IsSendable s row
    → r.count + length before ≤ 30
    → (rest : List Effect) × ((replay_rows s (before ++ row ∷ after) r).effects
        ≡ (replay_rows s before r).effects ++ send_data row.el acked ∷ deleted row.id ∷ rest)
unfolding after_sending replay_rows
replay_rows-sent s before after row r c a l =
    let r' = replay_rows s before r in
    let counted = (replay_rows-grows s before r).1 in
    let sent = query-sendable s row r' c a (omega (arith, counted, l)) in
    let ((rest, e), _) = replay_rows-grows s after (query s row r').0 in
    (
      rest,
      ap (λ (x : Replay). x.effects) (replay_rows-append s before (row ∷ after) r)
          ∙ e
          ∙ ap (λ (x : Replay). x.effects ++ rest) sent
          ∙ append_assoc r'.effects (send_data row.el acked ∷ deleted row.id ∷ []) rest,
    )
