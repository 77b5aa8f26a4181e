-- ===== src/State/Compare/Unordered.antt =====
-- Status messages as Go has them, without an order of their entries, and what `OnlyChanges` of
-- internal/state/status.go makes of them.
use go_gwiot.Prelude.{
  String, ◌≡◌, refl, sym, ap, ◌∙◌, Option, none, some, Option-cases, Outcome-cases, Outcome, ok,
  panic, ◌>>=◌, ok-injective, eq_refl, inl, inr,
}
use mathlib.Core.Quot
use mathlib.Core.Quot.{Quot}
use go_gwiot.State.Value.{Value, Fields, end, field, get, get_nil, IsMap, get-field_rest}
use go_gwiot.State.Replace.Order.{SameMap}
use go_gwiot.State.Compare.{
  report, reported, compare_value, compare_fields, func_compare_v2, as_message, only_changes,
}
use go_gwiot.State.Compare.Reports.{
  entry, get-compare_fields, get-compare_fields_absent, not-is_removed-alldata,
  not-is_static-alldata,
}

-- A map without the order of its entries.
abbrev pub Message : Type 0
Message = Quot SameMap

abbrev pub message_of : Fields → Message
message_of m = Quot.mk m

abbrev messages_of : Option Fields → Option Message
messages_of none = none
messages_of (some m) = some (message_of m)

-- A panic, the nil message, or a message without the order of its entries.
abbrev pub class_of : Outcome (Option Fields) → Outcome (Option Message)
class_of (ok o) = ok (messages_of o)
class_of panic = panic

get_nil-same : (m m' : Fields) (k : String) → get m k ≡ get m' k → get_nil m k ≡ get_nil m' k
unfolding get_nil
get_nil-same m m' k e = rw (get_nil, e) refl

-- The loop ends if the comparison of every entry does.
compare_fields-runs :
    (new last result : Fields)
    → IsMap last
    → ((k : String) (v : Value)
        → get last k ≡ some v
        → (res : Value) × (func_compare_v2 k (get_nil new k) v ≡ ok res))
    → (r : Fields) × (compare_fields new last result ≡ ok r)
unfolding compare_value func_compare_v2 get
compare_fields-runs new end result u h = (result, refl)
compare_fields-runs new (field k v last) result u h =
    let (res, here) = h k v (rw eq_refl refl) in
    let (r, rest) =
      compare_fields-runs new last (report result k res) u.1
        (λ j w l. h j w (get-field_rest last k j v w u.0 l)) in
    (r, ap (λ c. c >>= λ x. compare_fields new last (report result k x)) here ∙ rest)

-- The reports of two orders of the same two maps.
reports-same :
    (s s' last last' r : Fields)
    → IsMap last
    → IsMap last'
    → SameMap s s'
    → SameMap last last'
    → compare_fields s last end ≡ ok r
    → (r' : Fields) × (compare_fields s' last' end ≡ ok r') × SameMap r r'
unfolding get
reports-same s s' last last' r u u' e e' h = (ran.0, ran.1, same)
  where
    ended :
        (k : String) (v : Value)
        → get last' k ≡ some v
        → (res : Value) × (func_compare_v2 k (get_nil s' k) v ≡ ok res) × (get r k ≡ entry res)
    ended k v l =
        let (res, f, g) = get-compare_fields s last end r k v u h (e' k ∙ l) refl in
        (res, ap (λ d. func_compare_v2 k d v) (sym (get_nil-same s s' k (e k))) ∙ f, g)

    ran : (r' : Fields) × (compare_fields s' last' end ≡ ok r')
    ran = compare_fields-runs s' last' end u' (λ k v l. let (res, f, _) = ended k v l in (res, f))

    same : SameMap r ran.0
    same k = elim (Option-cases (get last' k)) [
      | inl absent ↦
          get-compare_fields_absent s last end r k h (e' k ∙ absent)
          ∙ sym (get-compare_fields_absent s' last' end ran.0 k ran.1 absent)
      | inr (v, l) ↦
          let (res, f, g) = ended k v l in
          let (res', f', g') = get-compare_fields s' last' end ran.0 k v u' ran.1 l refl in
          g ∙ ap entry (ok-injective (sym f ∙ f')) ∙ sym g'
    ]

-- What becomes of the loop's map.
abbrev sent_class : Outcome Fields → Outcome (Option Message)
sent_class c = class_of (c >>= (λ r. ok (reported r)) >>= (λ v. ok (as_message v)))

only_changes-class :
    (s last : Fields)
    → class_of (only_changes s (some last)) ≡ sent_class (compare_fields s last end)
unfolding only_changes
only_changes-class s last = rw (not-is_removed-alldata, not-is_static-alldata) refl

sent_class-same : (r r' : Fields) → SameMap r r' → sent_class (ok r) ≡ sent_class (ok r')
unfolding as_message get
sent_class-same end end e = refl
sent_class-same end (field k v m) e = let a : none ≡ some v = rw eq_refl at (e k) in absurd cc
sent_class-same (field k v m) end e = let a : some v ≡ none = rw eq_refl at (e k) in absurd cc
sent_class-same (field k v m) (field j w n) e = ap (λ q. ok (some q)) (Quot.sound e)

sent_class-compare_fields :
    (s s' last last' : Fields)
    → IsMap last
    → IsMap last'
    → SameMap s s'
    → SameMap last last'
    → sent_class (compare_fields s last end) ≡ sent_class (compare_fields s' last' end)
sent_class-compare_fields s s' last last' u u' e e' =
    elim (Outcome-cases (compare_fields s last end)) [
      | inl p ↦ elim (Outcome-cases (compare_fields s' last' end)) [
        | inl p' ↦ ap sent_class (p ∙ sym p')
        | inr (r', h') ↦
            let (r, h, _) =
              reports-same s' s last' last r' u' u (λ k. sym (e k)) (λ k. sym (e' k)) h' in
            absurd cc
      ]
      | inr (r, h) ↦
          let (r', h', same) = reports-same s s' last last' r u u' e e' h in
          ap sent_class h ∙ sent_class-same r r' same ∙ ap sent_class (sym h')
    ]

-- The last message, or none, in two orders.
abbrev pub SameLast : Option Fields → Option Fields → Type 0
SameLast none none = Unit
SameLast (some m) (some m') = IsMap m × IsMap m' × SameMap m m'
SameLast _ _ = ⊥

-- What `OnlyChanges` makes of a message and the one before it, or none, is a function of them as maps:
-- with other orders of their entries it panics, returns the nil message, or returns a message, in
-- just the same cases, and then the same message, but for the order of its entries.
pub only_changes_unordered :
    (s s' : Fields) (last last' : Option Fields)
    → SameMap s s'
    → SameLast last last'
    → class_of (only_changes s last) ≡ class_of (only_changes s' last')
unfolding only_changes
only_changes_unordered s s' none none e l = ap (λ q. ok (some q)) (Quot.sound e)
only_changes_unordered s s' none (some last') e l = elim l [ ]
only_changes_unordered s s' (some last) none e l = elim l [ ]
only_changes_unordered s s' (some last) (some last') e (u, u', e') =
    only_changes-class s last
    ∙ sent_class-compare_fields s s' last last' u u' e e'
    ∙ sym (only_changes-class s' last')
