-- ===== src/State/Compare/Repeat.antt =====
-- What a message reports when its fields repeat the last ones.
use go_gwiot.Prelude.{
  String, ◌≡◌, ◌≢◌, refl, sym, ap, ◌∙◌, true, false, Option, none, some, List, [], ◌∷◌, arith, ok,
  ok-injective, some-injective, ◌>>=◌, str_eq, eq_iff, eq_refl, if◌then◌else◌, Bool-cases,
  Option-cases, inl, inr, ◌⊎◌,
}
use go_gwiot.State.Value.{
  ℤ, Value, null, bool, float64, int, int64, string, byte_slice, string_slice, bytes_slice,
  int_slice, int64_slice, float64_slice, slice, object, uuid, nil, cons, Fields, end, field, get,
  get_nil, get_nil-some, IsMap, AllFields, float64_is_nan, float64_eq, int_eq,
}
use go_gwiot.State.Keys.{is_removed, is_static}
use go_gwiot.State.Slice.{compare_slice, string_ordered, ℤ_ordered}
use go_gwiot.State.Compare.Reports.{entry, entries, only_changes_fields}
use go_gwiot.State.Compare.{
  report, reported, compare_value, compare_fields, func_compare_v2, as_message, only_changes,
  strings_of,
}

-- A field whose key never reports, or whose key is compared and whose value is quiet.
abbrev mutual
  pub IsQuiet : Value → Type 0
  IsQuiet (float64 f) = float64_is_nan f ≡ false
  IsQuiet (int n) = Unit
  IsQuiet (int64 n) = Unit
  IsQuiet (string s) = Unit
  IsQuiet (string_slice ss) = Unit
  IsQuiet (int_slice ns) = Unit
  IsQuiet (int64_slice ns) = Unit
  IsQuiet (slice nil) = ⊥
  IsQuiet (slice (cons v vs)) = strings_of (cons v vs) ≢ none
  IsQuiet (object m) = IsMap m × QuietFields m
  IsQuiet _ = ⊥

  pub QuietFields : Fields → Type 0
  QuietFields end = Unit
  QuietFields (field k v m) =
      ((is_removed k ≡ true) ⊎ ((is_static k ≡ false) × IsQuiet v)) × QuietFields m

-- The new message holds each field of the last one.
abbrev Holds : Fields → Fields → Type 0
Holds new last = AllFields (λ k v. get new k ≡ some v) last

Holds-field :
    (new last : Fields) (k : String) (v : Value)
    → get last k ≡ none
    → Holds new last
    → Holds (field k v new) last
unfolding get
Holds-field new end k v a h = tt
Holds-field new (field j w last) k v a h = (
  elim (Bool-cases (str_eq k j)) [
    | inl e ↦ absurd (Holds-clash k j w last a ((eq_iff k j).0 e))
    | inr e ↦ rw e h.0
  ],
  Holds-field new last k v (Holds-rest k j w last a) h.1,
)
  where
    Holds-clash :
        (k j : String) (w : Value) (last : Fields) → get (field j w last) k ≡ none → k ≡ j → ⊥
    Holds-clash k j w last a e = let a' : some w ≡ none = rw (e, eq_refl) at a in cc

    Holds-rest :
        (k j : String) (w : Value) (last : Fields)
        → get (field j w last) k ≡ none
        → get last k ≡ none
    Holds-rest k j w last a = ground arith

Holds-self : (m : Fields) → IsMap m → Holds m m
unfolding get
Holds-self end u = tt
Holds-self (field k v m) u = (rw eq_refl, Holds-field m m k v u.0 (Holds-self m u.1))

int_eq_refl : (n : ℤ) → int_eq n n ≡ true
unfolding int_eq
int_eq_refl n = ground arith

compare_strings_refl : (ss : List String) → compare_slice ss ss ≡ ok true
unfolding compare_slice
compare_strings_refl [] = refl
compare_strings_refl (s ∷ ss) = rw eq_refl (compare_strings_refl ss)

compare_ints_refl : (ns : List ℤ) → compare_slice ns ns ≡ ok true
unfolding compare_slice
compare_ints_refl [] = refl
compare_ints_refl (n ∷ ns) = rw int_eq_refl (compare_ints_refl ns)

float64_eq_refl : (f : _) → float64_is_nan f ≡ false → float64_eq f f ≡ true
unfolding float64_eq
float64_eq_refl f h = ground (arith, h)

mutual
  unfolding compare_value

  quiet_null : (v : Value) → IsQuiet v → compare_value v v ≡ ok null
  quiet_null (float64 f) q = rw (float64_eq_refl f q)
  quiet_null (int n) q = rw int_eq_refl
  quiet_null (int64 n) q = rw int_eq_refl
  quiet_null (string s) q = rw eq_refl
  quiet_null (string_slice ss) q = rw compare_strings_refl
  quiet_null (int_slice ns) q = rw compare_ints_refl
  quiet_null (int64_slice ns) q = rw compare_ints_refl
  quiet_null (slice nil) q = absurd q
  quiet_null (slice (cons v vs)) q = elim (Option-cases (strings_of (cons v vs))) [
    | inl e ↦ absurd (q e)
    | inr (ss, e) ↦ rw (e, compare_strings_refl)
  ]
  quiet_null (object m) q = rw (quiet_fields m m q.1 (Holds-self m q.0))
  quiet_null null q = absurd q
  quiet_null (bool b) q = absurd q
  quiet_null (byte_slice b) q = absurd q
  quiet_null (bytes_slice b) q = absurd q
  quiet_null (float64_slice b) q = absurd q
  quiet_null (uuid b) q = absurd q

  quiet_fields :
      (new last : Fields) → QuietFields last → Holds new last → compare_fields new last end ≡ ok end
  quiet_fields new end q h = refl
  quiet_fields new (field k v last) q h = elim q.0 [
    | inl r ↦ rw r (quiet_fields new last q.1 h.1)
    | inr (s, qv) ↦ elim (Bool-cases (is_removed k)) [
      | inl r ↦ rw r (quiet_fields new last q.1 h.1)
      | inr n ↦ rw (n, s, get_nil-some new k v h.0, quiet_null v qv) (quiet_fields new last q.1 h.1)
    ]
  ]

-- A field that a repetition reports or leaves out by its key, or whose value is quiet.
abbrev pub StillFields : Fields → Type 0
StillFields m = AllFields (λ k v. (is_removed k ≡ true) ⊎ (is_static k ≡ true) ⊎ IsQuiet v) m

still_report :
    (k : String) (v : Value)
    → (is_removed k ≡ true) ⊎ (is_static k ≡ true) ⊎ IsQuiet v
    → func_compare_v2 k v v ≡ ok (if is_removed k then null else if is_static k then v else null)
unfolding func_compare_v2
still_report k v (inl r) = rw r
still_report k v (inr (inl s)) = rw s (ground arith)
still_report k v (inr (inr q)) = rw (quiet_null v q) (ground arith)

-- One round of the loop.
compare_fields-step :
    (new : Fields) (k : String) (v : Value) (last result : Fields)
    → compare_fields new (field k v last) result ≡ (do
      res ← func_compare_v2 k (get_nil new k) v
      compare_fields new last (report result k res))
unfolding compare_value func_compare_v2
compare_fields-step new k v last result = refl

still_total :
    (new last result : Fields)
    → StillFields last
    → Holds new last
    → (r : Fields) × (compare_fields new last result ≡ ok r)
unfolding compare_value
still_total new end result q h = (result, refl)
still_total new (field k v last) result q h =
    let shown : Value = if is_removed k then null else if is_static k then v else null in
    let (r, e) = still_total new last (report result k shown) q.1 h.1 in
    (
      r,
      compare_fields-step new k v last result
          ∙ (rw (get_nil-some new k v h.0, still_report k v q.0) e),
    )

only_changes-run :
    (s last r : Fields)
    → compare_fields s last end ≡ ok r
    → only_changes s (some last) ≡ ok (as_message (reported r))
unfolding only_changes compare_value is_removed is_static
only_changes-run s last r h = rw h

still_at :
    (m : Fields) (k : String) (v : Value)
    → StillFields m
    → get m k ≡ some v
    → (is_removed k ≡ true) ⊎ (is_static k ≡ true) ⊎ IsQuiet v
unfolding get
still_at end k v q h = absurd cc
still_at (field j w m) k v q h = elim (Bool-cases (str_eq j k)) [
  | inl e ↦
      let p : j ≡ k = (eq_iff j k).0 e in
      let w≡v : w ≡ v = some-injective (rw e at h) in rw (← p, ← w≡v) q.0
  | inr e ↦ still_at m k v q.1 (rw e at h)
]

-- What a repeated message holds at a key: the value of a static field, and nothing else.
abbrev pub static_entry : String → Option Value → Option Value
static_entry k none = none
static_entry k (some v) = entry (if is_removed k then null else if is_static k then v else null)

static-report :
    (m : Fields) (o : Option Fields) (k : String)
    → IsMap m
    → StillFields m
    → only_changes m (some m) ≡ ok o
    → get (entries o) k ≡ static_entry k (get m k)
static-report m o k u q run = elim (Option-cases (get m k)) [
  | inl e ↦ rw e ((only_changes_fields m m o k u run).0 e)
  | inr (v, e) ↦
      let (res, f, g) = (only_changes_fields m m o k u run).1 v e in
      let f' : func_compare_v2 k v v ≡ ok res =
        ap (λ d. func_compare_v2 k d v) (sym (get_nil-some m k v e)) ∙ f in
      rw e (g ∙ ap entry (ok-injective (sym f' ∙ still_report k v (still_at m k v q e))))
]

-- A message that repeats the last one, field for field, and whose fields are removed, static or quiet
-- (numbers, not NaN, texts, lists of texts or integers, and maps of such with no static key), is
-- compared without a panic and reports its static fields with their values and nothing else.
pub repeat_reports_static :
    (m : Fields)
    → IsMap m
    → StillFields m
    → (o : Option Fields) × (only_changes m (some m) ≡ ok o)
      × ((k : String) → get (entries o) k ≡ static_entry k (get m k))
repeat_reports_static m u q =
    let (r, e) = still_total m m end q (Holds-self m u) in
    let run = only_changes-run m m r e in
    (as_message (reported r), run, λ k. static-report m (as_message (reported r)) k u q run)
