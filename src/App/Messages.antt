-- ===== src/App/Messages.antt =====
-- What the remote actor makes of the app's messages, and the app of the status actor's.
use go_gwiot.Prelude.{
  String, ◌≡◌, refl, sym, ap, ◌∙◌, true, Option, none, some, List, [], ◌∷◌, ◌++◌, Outcome, ok,
  panic, ◌>>=◌, ok-injective, some-injective, str_eq, if◌then◌else◌,
}
use mathlib.Core.Path.{ap₂}
use go_gwiot.Prelude.Bytes.{Bytes, ascii}
use go_gwiot.State.Value.{ℤ, pos, Float64, Value, null, string, Fields, end, field, get, get_nil}
use go_gwiot.State.Compare.{only_changes, func_compare_v2}
use go_gwiot.State.Compare.Reports.{only_changes_nil_iff}
use go_gwiot.State.Actor as Status
use go_gwiot.State.Actor.{StatusActor, GroupReply, IsValid, receive-status_msg, prepare, find_group}
use go_gwiot.Remote.Prepare.{RemoteMsg2, prepare_msg, prepare_msg-object}
use go_gwiot.Remote.Replay.{acked, send_data}
use go_gwiot.Remote.Actor as Remote
use go_gwiot.Remote.Actor.{RemoteActor, remote_msg2, is_request_error}
use go_gwiot.Remote.Actor.Backup.{send_msg-handed}
use go_gwiot.App.{
  App, AppIn, AppOut, to_remote, status_msg, events_msg, World, receive, message, identified,
  state_json, events_json, drop_nil,
}

-- The text of a report, given those of its state and events.
abbrev pub report_text : Bytes → Bytes → Bytes → Bytes
report_text host j k =
    ascii "{\"sDv\": "
    ++ host
    ++ ascii ", "
    ++ (ascii "\"state\":" ++ j)
    ++ ascii ", "
    ++ (ascii "\"events\":" ++ k)
    ++ ascii "}"

module _ (marshal_state : Fields → Option Bytes) (marshal_events : List Fields → Option Bytes) where
  state_json-some :
      (m : Fields) (j : Bytes)
      → marshal_state (drop_nil m) ≡ some j
      → state_json marshal_state marshal_events m ≡ 123 ∷ (ascii "\"state\":" ++ j) ++ 125 ∷ []
  unfolding state_json
  state_json-some m j s = rw (s, state_json) refl

  events_json-some :
      (es : List Fields) (k : Bytes)
      → marshal_events es ≡ some k
      → events_json marshal_state marshal_events es ≡ 123 ∷ (ascii "\"events\":" ++ k) ++ 125 ∷ []
  unfolding events_json
  events_json-some es k e = rw (e, events_json) refl

  pub message-prepare :
      (host j k : Bytes) (m : Fields) (es : List Fields)
      → marshal_state (drop_nil m) ≡ some j
      → marshal_events es ≡ some k
      → prepare_msg host (message marshal_state marshal_events m es) ≡ ok (report_text host j k)
  message-prepare host j k m es s e =
      ap₂
        (λ (x y : Bytes).
          prepare_msg host (record { state = x; events = y; content = []; version = pos 2 }))
        (state_json-some m j s) (events_json-some es k e)
      ∙ prepare_msg-object host (ascii "\"state\":" ++ j) (ascii "\"events\":" ++ k) [] 123 125 123
          125

  message-sent :
      (w : Remote.World) (ps : RemoteActor) (j k : Bytes) (m : Fields) (es : List Fields)
      → marshal_state (drop_nil m) ≡ some j
      → marshal_events es ≡ some k
      → ps.is_connected ≡ true
      → w.reply ≡ acked
      → Remote.receive w (remote_msg2 (message marshal_state marshal_events m es)) ps
        ≡ ok (
          ps,
          record { effects = send_data (report_text w.quoted_host j k) acked ∷ []; self_sent = [] },
        )
  unfolding Remote.receive
  message-sent w ps j k m es s e c r =
      ap (λ (x : Outcome Bytes). x >>= λ content. ok (Remote.send_msg w content ps))
        (message-prepare w.quoted_host j k m es s e)
      ∙ ap ok (
          send_msg-handed w ps (report_text w.quoted_host j k) c (ap is_request_error r)
          ∙ ap
              (λ x. (
                ps,
                record {
                  effects = send_data (report_text w.quoted_host j k) x ∷ [];
                  self_sent = [];
                },
              ))
              r)

  -- The parts of a report: what the app makes of a status message and of a batch of events.
  unfoldable pub report_of : World → App → AppIn → Option (Fields × List Fields)
  report_of w app (status_msg (some msg)) = some (identified marshal_state marshal_events w msg, [])
  report_of w app (events_msg es) = some (
    identified marshal_state marshal_events w
        (field "sDv" (string (if str_eq app.sn_dev "" then w.hostname else app.sn_dev)) end),
    es,
  )
  report_of w app _ = none

  -- For a status message that is not nil, and for a batch of events, the app sends one message, to the
  -- remote actor that it knows; if their JSON can be made, and the client is connected and
  -- acknowledges, the remote actor sends one object with the host, that state and those events.
  pub receive-sent :
      (w : World) (app app' : App) (m : AppIn) (out : List AppOut) (state : Fields)
      (es : List Fields) (wr : Remote.World) (ps : RemoteActor) (j k : Bytes)
      → receive marshal_state marshal_events w m app ≡ ok (app', out)
      → report_of w app m ≡ some (state, es)
      → marshal_state (drop_nil state) ≡ some j
      → marshal_events es ≡ some k
      → ps.is_connected ≡ true
      → wr.reply ≡ acked
      → (rm : RemoteMsg2) × (out ≡ to_remote app.pid_remote rm ∷ [])
        × (Remote.receive wr (remote_msg2 rm) ps
            ≡ ok (
              ps,
              record {
                effects = send_data (report_text wr.quoted_host j k) acked ∷ [];
                self_sent = [];
              },
            ))
  unfolding receive report_of
  receive-sent w app app' (status_msg (some msg)) out state es wr ps j k h p s e c r =
      let parts = some-injective p in
      (
        message marshal_state marshal_events state es,
        ap (λ (x : App × List AppOut). x.1) (sym (ok-injective h))
            ∙ ap
                (λ (x : Fields × List Fields).
                  to_remote app.pid_remote (message marshal_state marshal_events x.0 x.1) ∷ [])
                parts,
        message-sent wr ps j k state es s e c r,
      )
  receive-sent w app app' (events_msg es') out state es wr ps j k h p s e c r =
      let parts = some-injective p in
      (
        message marshal_state marshal_events state es,
        ap (λ (x : App × List AppOut). x.1) (sym (ok-injective h))
            ∙ ap
                (λ (x : Fields × List Fields).
                  to_remote app.pid_remote (message marshal_state marshal_events x.0 x.1) ∷ [])
                parts,
        message-sent wr ps j k state es s e c r,
      )
  receive-sent w app app' _ out state es wr ps j k h p s e c r = absurd cc

-- A status message that changes nothing makes the app panic: where no key of the last message reports
-- anything, the status actor sends a nil message, and the app reads through it.
pub quiet_status-panics :
    (millis : Float64 → ℤ) (act act' : StatusActor) (msg last status : Fields) (reply : GroupReply)
    (o : Option Fields) (marshal_state : Fields → Option Bytes)
    (marshal_events : List Fields → Option Bytes) (w : World) (app : App)
    → IsValid act
    → act.last_status_msg ≡ some last
    → act'.last_status_msg ≡ some status
    → Status.receive millis act (Status.status_msg msg) reply ≡ ok (act', some o)
    → ((k : String) (v : Value)
        → get last k ≡ some v
        → func_compare_v2 k (get_nil status k) v ≡ ok null)
    → receive marshal_state marshal_events w (status_msg o) app ≡ panic
unfolding receive
quiet_status-panics millis act act' msg last status reply o ms me w app val el es h quiet =
    let (kept, o', sent, run) = receive-status_msg millis act act' msg reply (some o) h in
    let same : prepare millis (find_group act.group_id reply) msg ≡ status = cc (kept, es) in
    let run' : only_changes status (some last) ≡ ok o' =
      ap₂ only_changes (sym same) (sym el) ∙ run in
    let nothing : o' ≡ none = (only_changes_nil_iff status last o' (val last el) run').1 quiet in
    sent_nil o (some-injective sent ∙ nothing)
  where
    sent_nil : (x : Option Fields) → x ≡ none → receive ms me w (status_msg x) app ≡ panic
    sent_nil none e = refl
    sent_nil (some m) e = cc
