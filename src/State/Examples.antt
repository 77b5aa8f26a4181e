-- ===== src/State/Examples.antt =====
-- Runs of the status component on small messages, and its theorems at concrete inputs.
mod Sequences
mod Nested
use go_gwiot.Prelude.{
  String, ◌≡◌, ◌≢◌, refl, ◌↔◌, true, Option, none, some, List, [], ◌∷◌, ◌++◌, arith, ok, panic,
  some-injective, eq_iff, inl, inr, ◌⊎◌,
}
use mathlib.Core.Path.{subst}
use go_gwiot.State.Value.{
  ℤ, pos, Float64, Value, null, int, string, Fields, end, field, get, get_nil, put, IsMap, int_eq,
}
use go_gwiot.State.Keys.{rename, is_removed, is_static}
use go_gwiot.State.Replace.{replace_keys, replace_value}
use go_gwiot.State.Replace.Order.{SameMap, IsCollisionFree}
use go_gwiot.State.Replace.Collision.{replace_keys_collision}
use go_gwiot.State.Slice.{compare_slice, ℤ_ordered, compare_slice_iff}
use go_gwiot.State.Compare.{compare_value, func_compare_v2, only_changes}
use go_gwiot.State.Compare.Reports.{entry, entries, only_changes_fields}
use go_gwiot.State.Compare.Unordered.{class_of, only_changes_unordered}
use go_gwiot.State.Compare.Repeat.{repeat_reports_static, static_entry}
use go_gwiot.State.Compare.Delta.{merged}
use go_gwiot.State.Actor.{StatusActor, status_msg, wait_error, receive, IsValid, receive_merge}

-- A message as it arrives, and the next one.
abbrev first : Fields
first =
    field "sn-dev" (string "FLO-1")
      (field "hostname" (string "h1") (field "sn-modem" null (field "simImei" (int (pos 7)) end)))

abbrev first_renamed : Fields
first_renamed =
    field "sDv" (string "FLO-1") (field "h" (string "h1") (field "sI" (int (pos 7)) end))

abbrev second_renamed : Fields
second_renamed =
    field "sDv" (string "FLO-1")
      (field "h" (string "h2") (field "sI" (int (pos 7)) (field "tp" (string "new") end)))

replace_first : replace_keys first ≡ first_renamed
unfolding replace_keys replace_value rename put
replace_first = refl

-- The new field "tp" is not reported.
abbrev second_report : Fields
second_report = field "sDv" (string "FLO-1") (field "h" (string "h2") end)

only_changes_second : only_changes second_renamed (some first_renamed) ≡ ok (some second_report)
unfolding only_changes compare_value func_compare_v2 is_removed is_static get_nil put int_eq
only_changes_second = refl

first_renamed-IsMap : IsMap first_renamed
unfolding get
first_renamed-IsMap = (refl, (refl, (refl, tt)))

abbrev swapped : Fields
swapped = field "hostname" (string "h1") (field "mac" (string "m1") end)

abbrev straight : Fields
straight = field "mac" (string "m1") (field "hostname" (string "h1") end)

straight-swapped : SameMap straight swapped
unfolding get
straight-swapped k = ground (arith, eq_iff "mac" k, eq_iff "hostname" k, eq_iff "mac" "hostname")

straight-IsMap : IsMap straight
unfolding get
straight-IsMap = (refl, (refl, tt))

swapped-IsMap : IsMap swapped
unfolding get
swapped-IsMap = (refl, (refl, tt))

straight-key : (k : String) (v : Value) → get straight k ≡ some v → (k ≡ "mac") ⊎ (k ≡ "hostname")
unfolding get
straight-key k v h = ground (arith, eq_iff "mac" k, eq_iff "hostname" k)

mac-hostname : rename "mac" ≢ rename "hostname"
unfolding rename
mac-hostname e = ground (arith, eq_iff "m" "h")

straight-IsCollisionFree : IsCollisionFree straight
straight-IsCollisionFree k k' v v' h h' n n' e =
    ground (arith, straight-key k v, straight-key k' v', mac-hostname)

-- "timestamp" and "timeStamp" both become "t".
abbrev stamped_twice : Fields
stamped_twice =
    field "timestamp" (string "a")
      (field "hostname" (string "h1") (field "timeStamp" (string "b") end))

stamped_twice-IsMap : IsMap stamped_twice
unfolding get
stamped_twice-IsMap = (refl, (refl, (refl, tt)))

stamped_twice-one : get stamped_twice "timestamp" ≡ some (string "a")
unfolding get
stamped_twice-one = refl

stamped_twice-other : get stamped_twice "timeStamp" ≡ some (string "b")
unfolding get
stamped_twice-other = refl

same_short : rename "timestamp" ≡ rename "timeStamp"
unfolding rename
same_short = refl

replace_keys_collision_example :
    (one : Fields) × (other : Fields) × IsMap one
    × IsMap other
    × SameMap stamped_twice one
    × SameMap stamped_twice other
    × (get (replace_keys one) (rename "timestamp") ≡ some (replace_value (string "a")))
    × (get (replace_keys other) (rename "timestamp") ≡ some (replace_value (string "b")))
replace_keys_collision_example =
    replace_keys_collision stamped_twice "timestamp" "timeStamp" (string "a") (string "b")
      stamped_twice-IsMap stamped_twice-one stamped_twice-other refl refl same_short

int_eq_iff : (a b : ℤ) → (int_eq a b ≡ true) ↔ (a ≡ b)
unfolding int_eq
int_eq_iff a b = ground arith

-- A list that has grown by one number counts as unchanged; one that has shrunk is a panic.
compare_slice_iff_example :
    ((compare_slice (pos 1 ∷ pos 2 ∷ []) (pos 1 ∷ []) ≡ ok true)
      ↔ ((r : List ℤ) × (pos 1 ∷ pos 2 ∷ [] ≡ (pos 1 ∷ []) ++ r)))
    × ((compare_slice (pos 1 ∷ pos 2 ∷ []) (pos 1 ∷ []) ≡ panic)
        ↔ ((v : ℤ) × (r : List ℤ) × (pos 1 ∷ [] ≡ (pos 1 ∷ pos 2 ∷ []) ++ v ∷ r)))
compare_slice_iff_example = compare_slice_iff int_eq_iff (pos 1 ∷ pos 2 ∷ []) (pos 1 ∷ [])

only_changes_fields_example :
    (get first_renamed "tp" ≡ none → get second_report "tp" ≡ none)
    × ((v : Value)
        → get first_renamed "tp" ≡ some v
        → (res : Value) × (func_compare_v2 "tp" (get_nil second_renamed "tp") v ≡ ok res)
          × (get second_report "tp" ≡ entry res))
only_changes_fields_example =
    only_changes_fields second_renamed first_renamed (some second_report) "tp" first_renamed-IsMap
      only_changes_second

repeat_reports_static_example :
    (o : Option Fields) × (only_changes first_renamed (some first_renamed) ≡ ok o)
    × ((k : String) → get (entries o) k ≡ static_entry k (get first_renamed k))
unfolding is_static
repeat_reports_static_example =
    repeat_reports_static first_renamed first_renamed-IsMap
      (inr (inl refl), (inr (inr tt), (inr (inr tt), tt)))

abbrev millis : Float64 → ℤ
millis f = pos 0

abbrev after_first : StatusActor
after_first = record { last_status_msg = some first_renamed; group_id = "" }

abbrev second : Fields
second =
    field "hostname" (string "h2")
      (field "sn-dev" (string "FLO-1") (field "type" (string "new") end))

abbrev second_kept : Fields
second_kept = field "h" (string "h2") (field "sDv" (string "FLO-1") (field "tp" (string "new") end))

abbrev after_second : StatusActor
after_second = record { last_status_msg = some second_kept; group_id = "" }

receive-second :
    receive millis after_first (status_msg second) wait_error
    ≡ ok (after_second, some (some (field "sDv" (string "FLO-1") (field "h" (string "h2") end))))
unfolding receive replace_keys replace_value rename put get only_changes compare_value
    func_compare_v2 is_removed is_static get_nil int_eq
receive-second = refl

after_first-IsValid : IsValid after_first
after_first-IsValid l e = subst IsMap (some-injective e) first_renamed-IsMap

-- Both keys report, in the order of the last message.
abbrev both_new : Fields
both_new = field "mac" (string "m2") (field "hostname" (string "h2") end)

abbrev both_swapped : Fields
both_swapped = field "hostname" (string "h2") (field "mac" (string "m2") end)

only_changes-straight : only_changes both_new (some straight) ≡ ok (some both_new)
unfolding only_changes compare_value func_compare_v2 is_removed is_static get_nil put
only_changes-straight = refl

only_changes-swapped : only_changes both_new (some swapped) ≡ ok (some both_swapped)
unfolding only_changes compare_value func_compare_v2 is_removed is_static get_nil put
only_changes-swapped = refl

only_changes_unordered_example :
    class_of (only_changes both_new (some straight))
    ≡ class_of (only_changes both_new (some swapped))
only_changes_unordered_example =
    only_changes_unordered both_new both_new (some straight) (some swapped) (λ k. refl)
      (straight-IsMap, swapped-IsMap, straight-swapped)
