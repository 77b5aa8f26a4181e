-- ===== src/State/Runs.antt =====
-- Sequences of messages to the status actor (internal/state/status-actor.go), and what someone knows who
-- merges the reports. A panic restarts the actor as NewStatus makes it, as its producer in
-- internal/app/app-actor.go does, and loses the message.
use go_gwiot.Prelude.{
  String, ◌≡◌, refl, sym, ap, ◌∙◌, true, false, Option, none, some, List, [], ◌∷◌, ok, panic,
  Outcome-cases, ok-injective, some-injective, All, inl, inr,
}
use mathlib.Core.Path.{subst}
use go_gwiot.State.Value.{ℤ, Float64, Value, Fields, get, is_null, IsMap}
use go_gwiot.State.Keys.{is_removed}
use go_gwiot.State.Compare.{only_changes}
use go_gwiot.State.Compare.Reports.{entries}
use go_gwiot.State.Compare.Delta.{is_exact, merged, only_changes_merge}
use go_gwiot.State.Actor.{
  StatusActor, StatusIn, started, stopping, restarting, status_msg, GroupReply, new_status,
  find_group, prepare, receive, receive-status_msg, receive-IsValid, IsValid,
}

-- What is known of a key after one more report.
abbrev pub merged_report : String → Option Value → Option Fields → Option Value
merged_report k view report = elim (get (entries report) k) [ none ↦ view | some v ↦ some v ]

abbrev pub merged_reports : String → Option Value → List (Option Fields) → Option Value
merged_reports k view [] = view
merged_reports k view (report ∷ reports) = merged_reports k (merged_report k view report) reports

-- Who has this view of the key knows what the actor keeps of it, an integer or a text.
abbrev pub Knows : String → StatusActor → Option Value → Type 0
Knows k act view =
    (last : Fields)
    → act.last_status_msg ≡ some last
    → (v : Value) × (get last k ≡ some v) × (is_exact v ≡ true) × (view ≡ some v)

abbrev with_report : Option (Option Fields) → List (Option Fields) → List (Option Fields)
with_report none reports = reports
with_report (some report) reports = report ∷ reports

pub new_status-IsValid : IsValid new_status
unfolding new_status
new_status-IsValid l e = absurd cc

pub new_status-Knows : (k : String) (view : Option Value) → Knows k new_status view
unfolding new_status
new_status-Knows k view last e = absurd cc

is_exact-not_null : (v : Value) → is_exact v ≡ true → is_null v ≡ false
is_exact-not_null Value.null x = absurd cc
is_exact-not_null _ x = refl

merged-merged_report :
    (k : String) (v : Value) (o : Option Fields)
    → merged_report k (some v) o ≡ some (merged (get (entries o) k) v)
merged-merged_report k v o = go (get (entries o) k)
  where
    go :
        (r : Option Value)
        → elim r as (λ x. Option Value) [ none ↦ some v | some w ↦ some w ] ≡ some (merged r v)
    go none = refl
    go (some w) = refl

module _ (millis : Float64 → ℤ) where
  -- The messages handled one after the other, and the reports that are sent.
  unfoldable pub run :
      StatusActor → List (StatusIn × GroupReply) → StatusActor × List (Option Fields)
  run act [] = (act, [])
  run act ((m, reply) ∷ ins) = elim (receive millis act m reply) [
    | panic ↦ run new_status ins
    | ok (act', out) ↦ let (last, reports) = run act' ins in (last, with_report out reports)
  ]

  -- Once prepared, whatever the group, the message holds an integer or a text at the key.
  abbrev pub Carries : String → StatusIn × GroupReply → Type 0
  Carries k (status_msg msg, reply) =
      (g : String) → (d : Value) × (get (prepare millis g msg) k ≡ some d) × (is_exact d ≡ true)
  Carries k _ = Unit

  abbrev viewed : String → Option Value → Option (Option Fields) → Option Value
  viewed k view none = view
  viewed k view (some report) = merged_report k view report

  merged_reports-with_report :
      (k : String) (view : Option Value) (out : Option (Option Fields))
      (reports : List (Option Fields))
      → merged_reports k view (with_report out reports)
        ≡ merged_reports k (viewed k view out) reports
  merged_reports-with_report k view none reports = refl
  merged_reports-with_report k view (some report) reports = refl

  -- One message, with what was known before it.
  report-known :
      (k : String) (status : Fields) (d : Value) (last : Option Fields) (o : Option Fields)
      (view : Option Value)
      → is_removed k ≡ false
      → ((l : Fields)
          → last ≡ some l
          → IsMap l × ((v : Value) × (get l k ≡ some v) × (is_exact v ≡ true) × (view ≡ some v)))
      → only_changes status last ≡ ok o
      → get status k ≡ some d
      → is_exact d ≡ true
      → merged_report k view o ≡ some d
  unfolding only_changes
  report-known k status d none o view n know ran held x =
      let same : some status ≡ o = ok-injective ran in
      subst (λ r. merged_report k view r ≡ some d) same (rw (merged_report, held) refl)
  report-known k status d (some l) o view n know ran held x =
      let (u, (v, lk, xv, seen)) = know l refl in
      ap (λ w. merged_report k w o) seen
      ∙ merged-merged_report k v o
      ∙ ap some (only_changes_merge status l o k v d u ran lk held n xv (is_exact-not_null d x))

  receive-Knows :
      (k : String) (act act' : StatusActor) (m : StatusIn) (reply : GroupReply)
      (out : Option (Option Fields)) (view : Option Value)
      → is_removed k ≡ false
      → IsValid act
      → Knows k act view
      → Carries k (m, reply)
      → receive millis act m reply ≡ ok (act', out)
      → Knows k act' (viewed k view out)
  unfolding receive
  receive-Knows k act act' (started true) reply out view n val know c h =
      subst (λ x. Knows k x.0 (viewed k view x.1)) (ok-injective h) know
  receive-Knows k act act' (started false) reply out view n val know c h = absurd cc
  receive-Knows k act act' stopping reply out view n val know c h =
      subst (λ x. Knows k x.0 (viewed k view x.1)) (ok-injective h) know
  receive-Knows k act act' restarting reply out view n val know c h =
      subst (λ x. Knows k x.0 (viewed k view x.1)) (ok-injective h) know
  receive-Knows k act act' (status_msg msg) reply out view n val know c h = λ last e.
      let (kept, o, sent, ran) = receive-status_msg millis act act' msg reply out h in
      let (d, held, x) = c (find_group act.group_id reply) in
      (
        d,
        subst (λ s. get s k ≡ some d) (some-injective (sym kept ∙ e)) held,
        x,
        ap (viewed k view) sent
            ∙ report-known k (prepare millis (find_group act.group_id reply) msg) d
                act.last_status_msg o view n (λ l q. (val l q, know l q)) ran held x,
      )

  run-panic :
      (act : StatusActor) (m : StatusIn) (reply : GroupReply) (ins : List (StatusIn × GroupReply))
      → receive millis act m reply ≡ panic
      → run act ((m, reply) ∷ ins) ≡ run new_status ins
  unfolding run
  run-panic act m reply ins e = rw (run, e) refl

  run-ok :
      (act act' : StatusActor) (m : StatusIn) (reply : GroupReply)
      (ins : List (StatusIn × GroupReply)) (out : Option (Option Fields))
      → receive millis act m reply ≡ ok (act', out)
      → run act ((m, reply) ∷ ins) ≡ ((run act' ins).0, with_report out (run act' ins).1)
  unfolding run
  run-ok act act' m reply ins out e = rw (run, e) refl

  -- At first the last message kept, if there is one, is a map with distinct keys, and what is known of
  -- the key is what it holds there, an integer or a text; without one, as at the start of the actor,
  -- anything may be known. Then, after any sequence of messages, panics and restarts among them, who
  -- has merged all reports knows the value that the last message kept, if there is one, holds at the
  -- key: if each status message, once prepared, holds an integer or a text there, whatever the group,
  -- and the key is not one of `keysRemove`.
  pub run-Knows :
      (k : String) (ins : List (StatusIn × GroupReply)) (act : StatusActor) (view : Option Value)
      → is_removed k ≡ false
      → IsValid act
      → Knows k act view
      → All (Carries k) ins
      → let (act', reports) = run act ins in Knows k act' (merged_reports k view reports)
  unfolding run
  run-Knows k [] act view n val know c = know
  run-Knows k ((m, reply) ∷ ins) act view n val know (here, rest) =
      elim (Outcome-cases (receive millis act m reply)) [
        | inl e ↦
            subst (λ r. Knows k r.0 (merged_reports k view r.1)) (sym (run-panic act m reply ins e))
              (run-Knows k ins new_status view n new_status-IsValid (new_status-Knows k view) rest)
        | inr ((act', out), e) ↦
            subst (λ r. Knows k r.0 (merged_reports k view r.1))
              (sym (run-ok act act' m reply ins out e))
              (subst (Knows k (run act' ins).0)
                (sym (merged_reports-with_report k view out (run act' ins).1))
                (run-Knows k ins act' (viewed k view out) n
                  (receive-IsValid millis act act' m reply out val e)
                  (receive-Knows k act act' m reply out view n val know here e) rest))
      ]
