-- ===== src/State/Examples/Sequences.antt =====
-- A sequence of messages to the status actor, and its theorem at concrete inputs.
use go_gwiot.Prelude.{
  String, ◌≡◌, refl, false, true, Option, none, some, List, [], ◌∷◌, All, Bool-cases, inl, inr,
  str_eq,
}
use go_gwiot.State.Value.{
  ℤ, pos, Float64, string, int_slice, Fields, end, field, get, get_nil, put, int_eq,
}
use go_gwiot.State.Keys.{rename, is_removed, is_static}
use go_gwiot.State.Replace.{replace_keys, replace_value}
use go_gwiot.State.Slice.{compare_slice}
use go_gwiot.State.Compare.{compare_value, func_compare_v2, only_changes}
use go_gwiot.State.Actor.{
  StatusActor, StatusIn, started, status_msg, GroupReply, wait_error, new_status, with_group, stamp,
  prepare, receive,
}
use go_gwiot.State.Runs.{
  run, Carries, Knows, merged_reports, new_status-IsValid, new_status-Knows, run-Knows,
}

abbrev millis : Float64 → ℤ
millis f = pos 0

-- The second message has a shorter list than the first, which is a panic; the third is the first that the
-- restarted actor handles.
abbrev door : String → List ℤ → Fields
door host xs = field "hostname" (string host) (field "counts" (int_slice xs) end)

abbrev ins : List (StatusIn × GroupReply)
ins =
    (started true, wait_error)
    ∷ (status_msg (door "h1" (pos 1 ∷ pos 2 ∷ [])), wait_error)
    ∷ (status_msg (door "h2" (pos 1 ∷ [])), wait_error)
    ∷ (status_msg (door "h3" (pos 1 ∷ [])), wait_error)
    ∷ (status_msg (door "h4" (pos 1 ∷ [])), wait_error)
    ∷ []

abbrev kept : String → List ℤ → Fields
kept host xs = field "h" (string host) (field "counts" (int_slice xs) end)

abbrev reports : List (Option Fields)
reports =
    some (kept "h1" (pos 1 ∷ pos 2 ∷ []))
    ∷ some (kept "h3" (pos 1 ∷ []))
    ∷ some (field "h" (string "h4") end)
    ∷ []

abbrev at_end : StatusActor
at_end = record { last_status_msg = some (kept "h4" (pos 1 ∷ [])); group_id = "" }

run-ins : run millis new_status ins ≡ (at_end, reports)
unfolding run receive new_status replace_keys replace_value rename put get only_changes
    compare_value func_compare_v2 is_removed is_static get_nil int_eq compare_slice
run-ins = refl

door-Carries :
    (host : String) (xs : List ℤ) → Carries millis "h" (status_msg (door host xs), wait_error)
unfolding prepare with_group stamp replace_keys replace_value rename put get
door-Carries host xs g = elim (Bool-cases (str_eq g "")) [
  | inl e ↦ (string host, rw e refl, refl)
  | inr e ↦ (string host, rw e refl, refl)
]

ins-Carries : All (Carries millis "h") ins
ins-Carries = (
  tt,
  (
    door-Carries "h1" (pos 1 ∷ pos 2 ∷ []),
    (
      door-Carries "h2" (pos 1 ∷ []),
      (door-Carries "h3" (pos 1 ∷ []), (door-Carries "h4" (pos 1 ∷ []), tt)),
    ),
  ),
)

not-is_removed-h : is_removed "h" ≡ false
unfolding is_removed
not-is_removed-h = refl

run-Knows_example :
    let (act', sent) = run millis new_status ins in Knows "h" act' (merged_reports "h" none sent)
run-Knows_example =
    run-Knows millis "h" ins new_status none not-is_removed-h new_status-IsValid
      (new_status-Knows "h" none) ins-Carries
