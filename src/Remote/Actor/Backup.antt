-- ===== src/Remote/Actor/Backup.antt =====
-- What the remote actor does with a message that it is given to send.
use go_gwiot.Prelude.{
  ◌<◌, ◌≤◌, length, ◌≡◌, ◌≢◌, refl, sym, ap, ◌∙◌, Bool, true, false, ◌&&◌, not, List, [], ◌∷◌, ◌++◌,
  arith, ok, >>=-eq-ok, ok-injective, some-injective, some, if◌then◌else◌, ◌⊎◌, inl, inr,
}
use mathlib.Core.Path.{subst, ap₂}
use go_gwiot.Prelude.Bytes.{Bytes, bytes_eq_refl}
use go_gwiot.Remote.Numbers.{decimal, int64_bound, parse_int, parse_int-decimal}
use go_gwiot.State.Value.{pos}
use go_gwiot.Remote.Prepare.{RemoteMsg2, prepare_msg}
use go_gwiot.Remote.Replay.{
  SendReply, request_error, acked, Effect, send_data, update, database_name, collection_usos_data,
  Row, Setting, is_old, deleted, replay_rows,
}
use go_gwiot.Remote.Replay.Kept.{Store, carried_out, carried_out-append}
use go_gwiot.Remote.Replay.Limit.{replay_rows-sent}
use go_gwiot.Remote.Actor.{
  RemoteActor, remote_msg2, World, Output, receive, send_msg, backup, ensure_open, is_request_error,
  replay_start,
}

-- What is asked of the client: one request to send, if it counts as connected.
abbrev pub tried : World → RemoteActor → Bytes → List Effect
tried w ps content = if ps.is_connected then send_data content w.reply ∷ [] else []

-- The client is not connected, or does not answer the request.
abbrev pub IsUnsent : World → RemoteActor → Type 0
IsUnsent w ps = (ps.is_connected ≡ false) ⊎ ((ps.is_connected ≡ true) × (w.reply ≡ request_error))

-- What becomes of a message's text, with all that is done for it.
pub data Fate (w : World) (ps ps' : RemoteActor) (content : Bytes) (es : List Effect) : Type 0 where
  handed_over :
      ps.is_connected ≡ true
      → w.reply ≢ request_error
      → es ≡ send_data content w.reply ∷ []
      → Fate w ps ps' content es
  backed_up :
      IsUnsent w ps
      → ps.disable_replay ≡ false
      → (ps'.has_db && ps'.is_database_open) ≡ true
      → es
        ≡ tried w ps content
          ++ update (decimal w.unix_nano) content database_name collection_usos_data ∷ []
      → Fate w ps ps' content es
  dropped :
      IsUnsent w ps
      → (ps.disable_replay ≡ true) ⊎ ((ps'.has_db && ps'.is_database_open) ≡ false)
      → es ≡ tried w ps content
      → Fate w ps ps' content es

disabled-ensure_open :
    (w : World) (ps : RemoteActor) → (ensure_open w ps).disable_replay ≡ ps.disable_replay
unfolding ensure_open
disabled-ensure_open w ps = ground arith

not_kept : (d h o : Bool) → (not d && h && o) ≡ false → (d ≡ true) ⊎ ((h && o) ≡ false)
not_kept true h o e = inl refl
not_kept false h o e = inr e

kept : (d h o : Bool) → (not d && h && o) ≡ true → (d ≡ false) × ((h && o) ≡ true)
kept true h o e = absurd cc
kept false h o e = (refl, e)

kept_if :
    (w : World) (ps ps' : RemoteActor) (content : Bytes) (c : Bool)
    → IsUnsent w ps
    → ps'.disable_replay ≡ ps.disable_replay
    → (not ps'.disable_replay && ps'.has_db && ps'.is_database_open) ≡ c
    → Fate w ps ps' content (
        if c
        then tried w ps content
          ++ update (decimal w.unix_nano) content database_name collection_usos_data ∷ []
        else tried w ps content)
kept_if w ps ps' content true u d e =
    let (enabled, opened) = kept ps'.disable_replay ps'.has_db ps'.is_database_open e in
    backed_up u (sym d ∙ enabled) opened refl
kept_if w ps ps' content false u d e =
    dropped u
      (subst (λ b. (b ≡ true) ⊎ ((ps'.has_db && ps'.is_database_open) ≡ false)) d
        (not_kept ps'.disable_replay ps'.has_db ps'.is_database_open e))
      refl

backup-Fate :
    (w : World) (ps : RemoteActor) (content : Bytes) (es : List Effect)
    → IsUnsent w ps
    → tried w ps content ≡ es
    → Fate w ps (backup w content es ps).0 content (backup w content es ps).1.effects
unfolding backup
backup-Fate w ps content es u t =
    subst (λ l. Fate w ps (backup w content l ps).0 content (backup w content l ps).1.effects) t
      (kept_if w ps (ensure_open w ps) content _ u (disabled-ensure_open w ps) refl)

is_request_error→≡ : (r : SendReply) → is_request_error r ≡ true → r ≡ request_error
is_request_error→≡ request_error e = refl
is_request_error→≡ _ e = absurd cc

attempt-Fate :
    (w : World) (ps : RemoteActor) (content : Bytes) (c r : Bool)
    → ps.is_connected ≡ c
    → is_request_error w.reply ≡ r
    → let out : RemoteActor × Output =
        if not c
        then backup w content [] ps
        else if r
        then backup w content (send_data content w.reply ∷ []) ps
        else (ps, record { effects = send_data content w.reply ∷ []; self_sent = [] }) in
      Fate w ps out.0 content out.1.effects
attempt-Fate w ps content false r q x = backup-Fate w ps content [] (inl q) (rw q refl)
attempt-Fate w ps content true true q x =
    backup-Fate w ps content (send_data content w.reply ∷ [])
      (inr (q, is_request_error→≡ w.reply x)) (rw q refl)
attempt-Fate w ps content true false q x =
    handed_over q (λ e. let y : is_request_error w.reply ≡ true = ap is_request_error e in cc) refl

send_msg-Fate :
    (w : World) (ps : RemoteActor) (content : Bytes)
    → Fate w ps (send_msg w content ps).0 content (send_msg w content ps).1.effects
unfolding send_msg
send_msg-Fate w ps content =
    attempt-Fate w ps content ps.is_connected (is_request_error w.reply) refl refl

-- A connected client that answers at all is handed the message, and the state stays.
pub send_msg-handed :
    (w : World) (ps : RemoteActor) (content : Bytes)
    → ps.is_connected ≡ true
    → is_request_error w.reply ≡ false
    → send_msg w content ps
      ≡ (ps, record { effects = send_data content w.reply ∷ []; self_sent = [] })
unfolding send_msg
send_msg-handed w ps content q x =
    ap₂
      (λ (c r : Bool). if◌then◌else◌ {A = RemoteActor × Output} (not c) (backup w content [] ps) (
        if◌then◌else◌ {A = RemoteActor × Output} r
          (backup w content (send_data content w.reply ∷ []) ps)
          (ps, record { effects = send_data content w.reply ∷ []; self_sent = [] })))
      q x

-- A message that is given to the actor, and does not make it panic: with a connected client that answers
-- the one request to send it, that request is all that is done. If the client is not connected, so
-- that it is not asked, or does not answer the one request, the message is put into the database
-- under the time, as the only other thing that is done, if replays are enabled and there is an open
-- database; otherwise nothing else is done, and it is dropped.
pub receive-Fate :
    (w : World) (ps ps' : RemoteActor) (msg : RemoteMsg2) (out : Output)
    → receive w (remote_msg2 msg) ps ≡ ok (ps', out)
    → (content : Bytes) × (prepare_msg w.quoted_host msg ≡ ok content)
      × Fate w ps ps' content out.effects
unfolding receive
receive-Fate w ps ps' msg out h =
    let (content, p, e) = >>=-eq-ok (prepare_msg w.quoted_host msg) _ h in
    (
      content,
      p,
      subst (λ (x : RemoteActor × Output). Fate w ps x.0 content x.1.effects) (ok-injective e)
          (send_msg-Fate w ps content),
    )

update-reads :
    (t : Store) (id el db coll : Bytes) (tried : List Effect)
    → carried_out t (tried ++ update id el db coll ∷ []) db coll id ≡ some el
unfolding carried_out
update-reads t id el db coll tried =
    ap (λ (u : Store). u db coll id) (carried_out-append t tried (update id el db coll ∷ []))
    ∙ rw (bytes_eq_refl db, bytes_eq_refl coll, bytes_eq_refl id) refl

-- A message that comes while the client is not connected, with replays enabled and the database open,
-- is found in the database under its time, once the database has carried the call out; and a later
-- replay that reads this record, after at most 30 others and before any others, before its days are
-- over and with a connected client that acknowledges it, sends its text, unchanged, and deletes the
-- record right after that, whatever became of the records before it.
pub receive-replay_rows :
    (w : World) (ps ps' : RemoteActor) (msg : RemoteMsg2) (out : Output) (t : Store) (s : Setting)
    (before after : List Row) (row : Row)
    → receive w (remote_msg2 msg) ps ≡ ok (ps', out)
    → ps.is_connected ≡ false
    → ps.disable_replay ≡ false
    → (ps'.has_db && ps'.is_database_open) ≡ true
    → w.unix_nano < int64_bound
    → row.id ≡ decimal w.unix_nano
    → carried_out t out.effects database_name collection_usos_data row.id ≡ some row.el
    → length before ≤ 30
    → s.is_connected ≡ true
    → row.reply ≡ acked
    → is_old s.retry_days row.now (pos w.unix_nano) ≡ false
    → (content : Bytes) × (prepare_msg w.quoted_host msg ≡ ok content)
      × (carried_out t out.effects database_name collection_usos_data (decimal w.unix_nano)
          ≡ some content)
      × (rest : List Effect) × ((replay_rows s (before ++ row ∷ after) replay_start).effects
          ≡ (replay_rows s before replay_start).effects
            ++ send_data content acked ∷ deleted (decimal w.unix_nano) ∷ rest)
receive-replay_rows w ps ps' msg out t s before after row h c d o n i held few sc sr y =
    let (content, p, fate) = receive-Fate w ps ps' msg out h in
    let stored = kept_content content fate in
    let el : row.el ≡ content =
      some-injective
        (sym held ∙ ap (carried_out t out.effects database_name collection_usos_data) i ∙ stored) in
    let (rest, e) =
      replay_rows-sent s before after row replay_start sc
        (pos w.unix_nano, ap parse_int i ∙ parse_int-decimal w.unix_nano n, y, sr)
        (omega (arith, few)) in
    (
      content,
      p,
      stored,
      rest,
      e
          ∙ ap₂
              (λ (x id : Bytes).
                (replay_rows s before replay_start).effects
                ++ send_data x acked ∷ deleted id ∷ rest)
              el i,
    )
  where
    kept_content :
        (content : Bytes)
        → Fate w ps ps' content out.effects
        → carried_out t out.effects database_name collection_usos_data (decimal w.unix_nano)
          ≡ some content
    kept_content content (handed_over q x e) = absurd cc
    kept_content content (dropped u (inl q) e) = absurd cc
    kept_content content (dropped u (inr q) e) = absurd cc
    kept_content content (backed_up u q q' e) =
        ap (λ es. carried_out t es database_name collection_usos_data (decimal w.unix_nano)) e
        ∙ update-reads t (decimal w.unix_nano) content database_name collection_usos_data
            (tried w ps content)
