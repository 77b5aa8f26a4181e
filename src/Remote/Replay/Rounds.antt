-- ===== src/Remote/Replay/Rounds.antt =====
-- What one round of a replay does with its row, and how many messages a replay sends.
use go_gwiot.Prelude.{
  suc, ◌≤◌, ◌≡◌, refl, Bool, true, false, not, none, some, List, [], ◌∷◌, ◌++◌, arith, ltb,
  Bool-cases, Option-cases, if◌then◌else◌, ◌⊎◌, inl, inr, sym,
}
use mathlib.Core.List.{append-nil}
use go_gwiot.State.Value.{ℤ}
use go_gwiot.Remote.Numbers.{parse_int}
use go_gwiot.Remote.Replay.{
  SendReply, request_error, msg_error, acked, Effect, send_data, update_async, Row, Setting, Replay,
  is_old, archive, deleted, database_name, query, send_row,
}

-- What may be done with a row, with the condition of each: the record is left alone, and perhaps
-- offered to the client in vain; or it is deleted because its identifier is no number, because it has
-- been put into the archive of its day, or because the client has acknowledged it.
pub data Handled (s : Setting) (row : Row) : List Effect → Type 0 where
  left_alone : Handled s row []
  refused :
      s.is_connected ≡ true
      → (reply : SendReply) → row.reply ≡ reply
      → Handled s row (send_data row.el reply ∷ [])
  malformed : parse_int row.id ≡ none → Handled s row (deleted row.id ∷ [])
  archived :
      (tid : ℤ)
      → parse_int row.id ≡ some tid
      → is_old s.retry_days row.now tid ≡ true
      → Handled s row
          (update_async row.id row.el database_name (archive s tid) ∷ deleted row.id ∷ [])
  delivered :
      s.is_connected ≡ true
      → row.reply ≡ acked
      → Handled s row (send_data row.el acked ∷ deleted row.id ∷ [])

-- A round, by what it adds to the effects and to the count.
pub record Round (s : Setting) (row : Row) (r r' : Replay) : Type 0 where
  pub added : List Effect
  pub effects : r'.effects ≡ r.effects ++ added
  pub handled : Handled s row added
  pub limit : ((added ≡ []) × (r'.count ≡ r.count)) ⊎ ((r.count ≤ 30) × (r'.count ≡ suc r.count))

pub query-Round : (s : Setting) (row : Row) (r : Replay) → Round s row r (query s row r).0
unfolding query send_row
query-Round s row r = elim (Bool-cases (ltb 30 r.count)) [
  | inl e ↦ rw e (record {
    added = [];
    effects = sym (append-nil r.effects);
    handled = left_alone;
    limit = inl (refl, refl);
  })
  | inr e ↦
      let below : r.count ≤ 30 = ground arith in
      elim (Option-cases (parse_int row.id)) [
        | inl n ↦
            rw (e, n)
              (record {
                added = deleted row.id ∷ [];
                effects = refl;
                handled = malformed n;
                limit = inr (below, refl);
              })
        | inr (tid, p) ↦ elim (Bool-cases (is_old s.retry_days row.now tid)) [
          | inl o ↦
              rw (e, p, o)
                (record {
                  added =
                      update_async row.id row.el database_name (archive s tid)
                      ∷ deleted row.id
                      ∷ [];
                  effects = refl;
                  handled = archived tid p o;
                  limit = inr (below, refl);
                })
          | inr y ↦ rw (e, p, y) (offered below s.is_connected refl)
        ]
      ]
]
  where
    counted : Replay
    counted = record r { count = suc r.count }

    sent :
        r.count ≤ 30
        → s.is_connected ≡ true
        → (reply : SendReply) → row.reply ≡ reply
        → Round s row r (send_row row counted).0
    sent below c acked q = rw q (record {
      added = send_data row.el acked ∷ deleted row.id ∷ [];
      effects = refl;
      handled = delivered c refl;
      limit = inr (below, refl);
    })
    sent below c request_error q = rw q (record {
      added = send_data row.el request_error ∷ [];
      effects = refl;
      handled = refused c request_error refl;
      limit = inr (below, refl);
    })
    sent below c msg_error q = rw q (record {
      added = send_data row.el msg_error ∷ [];
      effects = refl;
      handled = refused c msg_error refl;
      limit = inr (below, refl);
    })

    offered :
        r.count ≤ 30
        → (c : Bool) → s.is_connected ≡ c
        → Round s row r (if not c then (counted, false) else send_row row counted).0
    offered below true q = sent below q row.reply refl
    offered below false q = record {
      added = [];
      effects = sym (append-nil r.effects);
      handled = left_alone;
      limit = inr (below, refl);
    }
