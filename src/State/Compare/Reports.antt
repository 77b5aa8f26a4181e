-- ===== src/State/Compare/Reports.antt =====
-- What a status message reports, field by field.
use go_gwiot.Prelude.{
  String, ◌≡◌, refl, sym, ap, ◌∙◌, false, Option, none, some, Outcome, ok, panic, ok-injective,
  some-injective, ◌>>=◌, >>=-eq-ok, str_eq, eq_iff, eq_refl, if◌then◌else◌, Bool-cases,
  Option-cases, inl, inr, ◌↔◌,
}
use go_gwiot.State.Value.{Value, null, Fields, end, field, get, get_nil, is_null, get-put, IsMap}
use go_gwiot.State.Keys.{is_removed, is_static}
use go_gwiot.State.Compare.{
  gate, report, reported, compare_value, compare_fields, func_compare_v2, as_message, only_changes,
}

-- A value as a map entry: a nil report is no entry.
abbrev pub entry : Value → Option Value
entry v = if is_null v then none else some v

-- A report shows at its own key and nowhere else.
get-report_ne :
    (result : Fields) (k j : String) (res : Value)
    → str_eq k j ≡ false
    → get (report result k res) j ≡ get result j
get-report_ne result k j res h = elim (Bool-cases (is_null res)) [
  | inl e ↦ rw e
  | inr e ↦ rw (e, get-put result k j res, h)
]

get-report_self :
    (result : Fields) (k : String) (res : Value)
    → get result k ≡ none
    → get (report result k res) k ≡ entry res
get-report_self result k res h = elim (Bool-cases (is_null res)) [
  | inl e ↦ rw e h
  | inr e ↦ rw (e, get-put result k k res, eq_refl)
]

pub get-compare_fields_absent :
    (new last result r : Fields) (k : String)
    → compare_fields new last result ≡ ok r
    → get last k ≡ none
    → get r k ≡ get result k
unfolding compare_value get
get-compare_fields_absent new end result r k h a = ap (λ m. get m k) (ok-injective (sym h))
get-compare_fields_absent new (field j v last) result r k h a = elim (Bool-cases (str_eq j k)) [
  | inl e ↦ absurd (let a' : some v ≡ none = rw e at a in cc)
  | inr e ↦
      let (res, _, rest) =
        >>=-eq-ok (gate j (get_nil new j) (compare_value (get_nil new j) v)) _ h in
      get-compare_fields_absent new last (report result j res) r k rest (rw e at a)
      ∙ get-report_ne result j k res e
]

pub get-compare_fields :
    (new last result r : Fields) (k : String) (v : Value)
    → IsMap last
    → compare_fields new last result ≡ ok r
    → get last k ≡ some v
    → get result k ≡ none
    → (res : Value) × (func_compare_v2 k (get_nil new k) v ≡ ok res) × (get r k ≡ entry res)
unfolding func_compare_v2 get
get-compare_fields new end result r k v u h l e = absurd cc
get-compare_fields new (field j w last) result r k v u h l e =
    let (res, here, rest) =
      >>=-eq-ok (gate j (get_nil new j) (compare_value (get_nil new j) w)) _ h in
    elim (Bool-cases (str_eq j k)) [
      | inl same ↦
          let p : j ≡ k = (eq_iff j k).0 same in
          let q : w ≡ v = some-injective (rw same at l) in
          let e' : get result j ≡ none = rw p e in
          rw (← p, ← q)
            (
              res,
              here,
              get-compare_fields_absent new last (report result j res) r j rest u.0
                  ∙ get-report_self result j res e',
            )
      | inr other ↦
          get-compare_fields new last (report result j res) r k v u.1 rest (rw other at l)
            (get-report_ne result j k res other ∙ e)
    ]

-- The entries of a result, `none` for the nil message.
abbrev pub entries : Option Fields → Fields
entries none = end
entries (some m) = m

pub not-is_removed-alldata : is_removed "alldata" ≡ false
unfolding is_removed
not-is_removed-alldata = refl

pub not-is_static-alldata : is_static "alldata" ≡ false
unfolding is_static
not-is_static-alldata = refl

entries-reported : (m : Fields) → entries (as_message (reported m)) ≡ m
unfolding as_message
entries-reported end = refl
entries-reported (field k v m) = refl

loop-result :
    (c : Outcome Fields) (o : Option Fields)
    → (c >>= (λ r. ok (reported r)) >>= (λ v. ok (as_message v))) ≡ ok o
    → (c ≡ ok (entries o)) × (o ≡ as_message (reported (entries o)))
loop-result (ok r) o h =
    let p : as_message (reported r) ≡ o = ok-injective h in
    let q : entries o ≡ r = ap entries (sym p) ∙ entries-reported r in
    (ap ok (sym q), sym p ∙ ap (λ m. as_message (reported m)) (sym q))
loop-result panic o h = absurd cc

-- A comparison of whole messages is the loop over the last message's entries.
only_changes-ok :
    (s last : Fields) (o : Option Fields)
    → only_changes s (some last) ≡ ok o
    → (compare_fields s last end ≡ ok (entries o)) × (o ≡ as_message (reported (entries o)))
unfolding only_changes
only_changes-ok s last o h =
    loop-result (compare_fields s last end) o
      (rw (not-is_removed-alldata, not-is_static-alldata) at h)

-- The message that is sent after a comparison with the last one holds, at a key of the last message,
-- what `funcCompare_v2` reports of that key (nothing if that is nil), and nothing at any other key:
-- a field that the last message did not have is never reported, not even one of `keysStatic`.
pub only_changes_fields :
    (s last : Fields) (o : Option Fields) (k : String)
    → IsMap last
    → only_changes s (some last) ≡ ok o
    → (get last k ≡ none → get (entries o) k ≡ none)
      × ((v : Value)
          → get last k ≡ some v
          → (res : Value) × (func_compare_v2 k (get_nil s k) v ≡ ok res)
            × (get (entries o) k ≡ entry res))
unfolding get
only_changes_fields s last o k u h =
    let run = only_changes-ok s last o h in
    (
      get-compare_fields_absent s last end (entries o) k run.0,
      λ v l. get-compare_fields s last end (entries o) k v u run.0 l refl,
    )

entry-null : (r : Value) → entry r ≡ none → r ≡ null
entry-null null e = refl
entry-null _ e = absurd cc

end_of_get : (m : Fields) → ((k : String) → get m k ≡ none) → m ≡ end
unfolding get
end_of_get end h = refl
end_of_get (field k v m) h = let a : some v ≡ none = rw eq_refl at (h k) in absurd cc

as_message-reported-end : as_message (reported end) ≡ none
unfolding as_message
as_message-reported-end = refl

-- A comparison that ends without a panic sends the nil message exactly when no key of the last
-- message reports anything.
pub only_changes_nil_iff :
    (s last : Fields) (o : Option Fields)
    → IsMap last
    → only_changes s (some last) ≡ ok o
    → (o ≡ none) ↔ (
        (k : String) (v : Value)
        → get last k ≡ some v
        → func_compare_v2 k (get_nil s k) v ≡ ok null)
unfolding get
only_changes_nil_iff s last o u h = (
  λ e k v l.
      let (res, f, g) = (only_changes_fields s last o k u h).1 v l in
      f ∙ ap ok (entry-null res (sym g ∙ ap (λ m. get (entries m) k) e)),
  λ quiet.
      (only_changes-ok s last o h).1
      ∙ ap (λ m. as_message (reported m)) (end_of_get (entries o) (nothing quiet))
      ∙ as_message-reported-end,
)
  where
    nothing :
        ((k : String) (v : Value)
          → get last k ≡ some v
          → func_compare_v2 k (get_nil s k) v ≡ ok null)
        → (k : String) → get (entries o) k ≡ none
    nothing quiet k = elim (Option-cases (get last k)) [
      | inl e ↦ (only_changes_fields s last o k u h).0 e
      | inr (v, e) ↦
          let (res, f, g) = (only_changes_fields s last o k u h).1 v e in
          g ∙ ap entry (ok-injective (sym f ∙ quiet k v e))
    ]
