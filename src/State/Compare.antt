-- ===== src/State/Compare.antt =====
-- `funcCompare_v2` and `OnlyChanges` of internal/state/status.go: what a status message reports
-- against the one before it. A panic in `compareSlice` ends the whole comparison.
pub mod Reports
pub mod Repeat
pub mod Delta
pub mod First
pub mod Unordered
use go_gwiot.Prelude.{
  String, Bool, true, false, Option, none, some, List, [], ◌∷◌, map, Outcome, ok, panic, ◌>>=◌,
  str_eq, if◌then◌else◌,
}
use go_gwiot.Prelude.Bytes.{Bytes, bytes_eq, contains, utf8}
use go_gwiot.State.Value.{
  ℤ, Float64, Value, null, bool, float64, int, int64, string, byte_slice, string_slice, bytes_slice,
  int_slice, int64_slice, float64_slice, slice, object, uuid, Items, nil, cons, Fields, end, field,
  get_nil, put, is_empty, is_null, float64_eq, int_eq,
}
use go_gwiot.State.Keys.{is_removed, is_static}
use go_gwiot.State.Slice.{
  Ordered, compare_slice, string_ordered, ℤ_ordered, float64_ordered, bytes_ordered,
}

-- `last == data`, with `last` an int, int64, float64 or string: the dynamic types and the values.
scalar_eq : Value → Value → Bool
scalar_eq (int a) (int b) = int_eq a b
scalar_eq (int64 a) (int64 b) = int_eq a b
scalar_eq (float64 a) (float64 b) = float64_eq a b
scalar_eq (string a) (string b) = str_eq a b
scalar_eq _ _ = false

scalar_change : Value → Value → Value
scalar_change last d = if scalar_eq last d then null else d

-- What a slice reports: nil if `compareSlice` finds nothing new.
slice_change : Value → Outcome Bool → Outcome Value
slice_change d same = do b ← same; ok (if b then null else d)

-- `v.(string)` of every element.
unfoldable pub strings_of : Items → Option (List String)
strings_of nil = some []
strings_of (cons (string s) xs) = elim (strings_of xs) [ none ↦ none | some ss ↦ some (s ∷ ss) ]
strings_of (cons v xs) = none

-- The last two tests of `case []interface{}`: both must hold nothing but strings.
both_strings : Value → Option (List String) → Option (List String) → Outcome Value
both_strings d (some new) (some last) = slice_change d (compare_slice new last)
both_strings d _ _ = ok d

compare_strings : Value → List String → Outcome Value
compare_strings (string_slice new) last = slice_change (string_slice new) (compare_slice new last)
compare_strings d last = ok d

-- `case [][]byte` asks for `[]string` in the new message, and compares with `string(v)`.
compare_bytes_slice : Value → List Bytes → Outcome Value
compare_bytes_slice (string_slice new) last =
    slice_change (string_slice new) (compare_slice (map utf8 new) last)
compare_bytes_slice d last = ok d

compare_ints : Value → List ℤ → Outcome Value
compare_ints (int_slice new) last = slice_change (int_slice new) (compare_slice new last)
compare_ints d last = ok d

compare_int64s : Value → List ℤ → Outcome Value
compare_int64s (int64_slice new) last = slice_change (int64_slice new) (compare_slice new last)
compare_int64s d last = ok d

compare_float64s : Value → List Float64 → Outcome Value
compare_float64s (float64_slice new) last =
    slice_change (float64_slice new) (compare_slice new last)
compare_float64s d last = ok d

-- `case []byte`: the new value is reported if it contains the last one.
compare_bytes : Value → Bytes → Value
compare_bytes (byte_slice new) last = if contains new last then byte_slice new else null
compare_bytes d last = d

compare_items : Value → Items → Outcome Value
compare_items d nil = ok d
compare_items (slice new) (cons v last) =
    both_strings (slice new) (strings_of new) (strings_of (cons v last))
compare_items d (cons v last) = ok d

-- `keysRemove` and `keysStatic` come before any comparison.
abbrev pub gate : String → Value → Outcome Value → Outcome Value
gate key d compared = if is_removed key then ok null else if is_static key then ok d else compared

-- `if res := …; res != nil { result[k] = res }`
abbrev pub report : Fields → String → Value → Fields
report result k res = if is_null res then result else put result k res

-- `if len(result) <= 0 { return nil }`
abbrev pub reported : Fields → Value
reported result = if is_empty result then null else object result

-- The `switch` of `funcCompare_v2`, over the last value, and its loop over the last map's entries.
unfoldable mutual
  unfolding compare_strings compare_bytes_slice compare_ints compare_int64s compare_float64s
      scalar_change compare_bytes compare_items slice_change strings_of both_strings scalar_eq

  pub compare_value : Value → Value → Outcome Value
  compare_value d (object last) = elim d [
    | object new ↦ do result ← compare_fields new last end; ok (reported result)
    | other ↦ ok other
  ]
  compare_value d (string_slice last) = compare_strings d last
  compare_value d (bytes_slice last) = compare_bytes_slice d last
  compare_value d (int_slice last) = compare_ints d last
  compare_value d (int64_slice last) = compare_int64s d last
  compare_value d (float64_slice last) = compare_float64s d last
  compare_value d (int a) = ok (scalar_change (int a) d)
  compare_value d (int64 a) = ok (scalar_change (int64 a) d)
  compare_value d (float64 a) = ok (scalar_change (float64 a) d)
  compare_value d (string a) = ok (scalar_change (string a) d)
  compare_value d (byte_slice last) = ok (compare_bytes d last)
  compare_value d (slice last) = compare_items d last
  compare_value d null = ok d
  compare_value d (bool b) = ok d
  compare_value d (uuid u) = ok d

  pub compare_fields : Fields → Fields → Fields → Outcome Fields
  compare_fields new end result = ok result
  compare_fields new (field k v last) result = do
    res ← gate k (get_nil new k) (compare_value (get_nil new k) v)
    compare_fields new last (report result k res)

unfoldable pub func_compare_v2 : String → Value → Value → Outcome Value
unfolding compare_value
func_compare_v2 key d last = gate key d (compare_value d last)

unfoldable pub as_message : Value → Option Fields
as_message (object m) = some m
as_message _ = none

-- `none` is the nil `*StatusMsg`, both as the last message and as the result.
unfoldable pub only_changes : Fields → Option Fields → Outcome (Option Fields)
unfolding func_compare_v2 as_message
only_changes s none = ok (some s)
only_changes s (some last) = do
  result ← func_compare_v2 "alldata" (object s) (object last)
  ok (as_message result)
