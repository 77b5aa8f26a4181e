-- ===== src/State/Value.antt =====
-- The dynamic values that a status or event message holds: Go's `interface{}` in a
-- `map[string]interface{}` (internal/state/status.go, internal/events/events.go).
use Prim.Native.Nat.{ℕ, ◌%◌}
use go_gwiot.Prelude.{
  String, ◌≡◌, refl, Bool, true, false, ◌&&◌, ◌||◌, not, Option, none, some, List, arith, str_eq,
  eq_iff, ◌==◌, ltb, if◌then◌else◌, Bool-cases, inl, inr,
}
use go_gwiot.Prelude.Bytes.{Bytes}

-- An int or int64: `negsuc n` is -(n + 1).
pub data ℤ : Type 0 where
  pos : ℕ → ℤ
  negsuc : ℕ → ℤ

-- A float64, by its 64-bit IEEE 754 pattern.
pub record Float64 : Type 0 where
  pub bits : ℕ

-- What `interface{}` holds, one constructor for each dynamic type that the code tells apart, and
-- `uuid` for the `uuid.UUID` that the app puts in. A map is the sequence of its entries in the order
-- of one iteration; `put` keeps its keys distinct.
mutual
  pub data Value : Type 0 where
    null : Value
    bool : Bool → Value
    float64 : Float64 → Value
    int : ℤ → Value
    int64 : ℤ → Value
    string : String → Value
    byte_slice : Bytes → Value
    string_slice : List String → Value
    bytes_slice : List Bytes → Value
    int_slice : List ℤ → Value
    int64_slice : List ℤ → Value
    float64_slice : List Float64 → Value
    slice : Items → Value
    object : Fields → Value
    uuid : Bytes → Value

  pub data Items : Type 0 where
    nil : Items
    cons : Value → Items → Items

  pub data Fields : Type 0 where
    end : Fields
    field : String → Value → Fields → Fields

-- `m[k]` with its `ok`: `none` is a missing key.
unfoldable pub get : Fields → String → Option Value
get end k = none
get (field j v m) k = if str_eq j k then some v else get m k

-- `m[k]` alone: a missing key reads as nil.
unfoldable pub get_nil : Fields → String → Value
unfolding get
get_nil m k = elim (get m k) [ none ↦ null | some v ↦ v ]

-- `m[k] = v`
unfoldable pub put : Fields → String → Value → Fields
put end k v = field k v end
put (field j w m) k v = if str_eq j k then field j v m else field j w (put m k v)

-- len(m)
abbrev pub is_empty : Fields → Bool
is_empty end = true
is_empty (field k v m) = false

abbrev pub is_null : Value → Bool
is_null null = true
is_null _ = false

-- Every entry of the map satisfies `P`.
abbrev pub AllFields : (String → Value → Type 0) → Fields → Type 0
AllFields P end = Unit
AllFields P (field k v m) = P k v × AllFields P m

-- `==` of Go on float64: NaN is unequal to all, and the two zeros are equal.
unfoldable pub float64_is_nan : Float64 → Bool
float64_is_nan f = ltb 9218868437227405312 (f.bits % 9223372036854775808)

unfoldable pub float64_eq : Float64 → Float64 → Bool
unfolding float64_is_nan
float64_eq a b =
    not (float64_is_nan a)
    && not (float64_is_nan b)
    && (a.bits == b.bits
        || (a.bits % 9223372036854775808 == 0 && b.bits % 9223372036854775808 == 0))

unfoldable pub int_eq : ℤ → ℤ → Bool
int_eq (pos a) (pos b) = a == b
int_eq (negsuc a) (negsuc b) = a == b
int_eq _ _ = false

-- The dictionary law: a write shows at its own key and at no other.
pub get-put :
    (m : Fields) (k j : String) (v : Value)
    → get (put m k v) j ≡ (if str_eq k j then some v else get m j)
unfolding get put
get-put end k j v = refl
get-put (field i w m) k j v = ground (arith, eq_iff k j, eq_iff i k, eq_iff i j, get-put m k j v)

-- The keys of a map are distinct.
abbrev pub IsMap : Fields → Type 0
IsMap end = Unit
IsMap (field k v m) = (get m k ≡ none) × IsMap m

pub put-IsMap : (m : Fields) (k : String) (v : Value) → IsMap m → IsMap (put m k v)
unfolding put get
put-IsMap end k v u = (refl, tt)
put-IsMap (field j w m) k v u = elim (Bool-cases (str_eq j k)) [
  | inl e ↦ rw e (u.0, u.1)
  | inr e ↦ rw e (ground (arith, get-put m k j v, eq_iff k j, eq_iff j k, u.0), put-IsMap m k v u.1)
]

none-ne-some :
    (m : Fields) (k j : String) (w : Value) → get m k ≡ none → k ≡ j → get m j ≡ some w → ⊥
none-ne-some m k j w u e h = cc

-- A field that comes first and is no key of the rest does not hide what the rest holds.
pub get-field_rest :
    (m : Fields) (k j : String) (v w : Value)
    → get m k ≡ none
    → get m j ≡ some w
    → get (field k v m) j ≡ some w
unfolding get
get-field_rest m k j v w u h = elim (Bool-cases (str_eq k j)) [
  | inl e ↦ absurd (none-ne-some m k j w u ((eq_iff k j).0 e) h)
  | inr e ↦ rw e h
]

pub get_nil-some : (m : Fields) (k : String) (v : Value) → get m k ≡ some v → get_nil m k ≡ v
unfolding get_nil
get_nil-some m k v h = rw (h, get_nil)

-- What `json.Unmarshal` leaves in a map, and whether it returns an error; with an error the map may hold
-- what came before the fault.
pub record Decoded : Type 0 where
  pub value : Fields
  pub failed : Bool
