-- ===== src/Remote/Numbers.antt =====
-- What internal/remote/remote-actor.go uses of strconv.ParseInt, fmt's %d and time: identifiers of
-- kept messages are times in nanoseconds.
use go_gwiot.Prelude.{
  ℕ, zero, suc, ◌+◌, ◌-◌, ◌*◌, ◌/◌, ◌%◌, ◌≤◌, ◌<◌, ◌≡◌, refl, sym, ap, ◌∙◌, Bool, true, false, ◌&&◌,
  Option, none, some, [], ◌∷◌, ◌++◌, arith, ltb, leb, ◌==◌, if◌then◌else◌, Bool-cases, inl, inr,
  lt→ltb,
}
use go_gwiot.Prelude.Bytes.{Bytes}
use go_gwiot.State.Value.{ℤ, pos, negsuc}

-- 2 ^ 63 and 2 ^ 64
abbrev pub int64_bound : ℕ
int64_bound = 9223372036854775808

abbrev pub uint64_bound : ℕ
uint64_bound = 18446744073709551616

-- An int64 from a product that wraps around.
unfoldable pub to_int64 : ℕ → ℤ
to_int64 n =
    let r = n % uint64_bound in if ltb r int64_bound then pos r else negsuc (uint64_bound - 1 - r)

abbrev is_digit : ℕ → Bool
is_digit c = leb 48 c && leb c 57

-- The digits' value, after the digits before them; `none` if another byte is met.
unfoldable pub digits_value : ℕ → Bytes → Option ℕ
digits_value acc [] = some acc
digits_value acc (c ∷ cs) =
    let rest = digits_value (acc * 10 + (c - 48)) cs in if is_digit c then rest else none

non_negative : Option ℕ → Option ℤ
non_negative none = none
non_negative (some n) = if ltb n int64_bound then some (pos n) else none

negative : Option ℕ → Option ℤ
negative none = none
negative (some zero) = some (pos 0)
negative (some (suc n)) = if ltb n int64_bound then some (negsuc n) else none

-- The text after a sign: it may not be empty.
unsigned : Bytes → Option ℕ
unfolding digits_value
unsigned [] = none
unsigned (c ∷ cs) = digits_value 0 (c ∷ cs)

-- `strconv.ParseInt(id, 10, 64)`; `none` is an error, of syntax or of range.
unfoldable pub parse_int : Bytes → Option ℤ
unfolding unsigned non_negative negative
parse_int [] = none
parse_int (c ∷ cs) =
    if c == 45
    then negative (unsigned cs)
    else if c == 43
    then non_negative (unsigned cs)
    else non_negative (unsigned (c ∷ cs))

-- `fmt.Sprintf("%d", n)`, with fuel for the digits; more than `n` is enough.
unfoldable pub decimal_on : ℕ → ℕ → Bytes
decimal_on zero n = []
decimal_on (suc fuel) n =
    let rest = decimal_on fuel (n / 10) in
    if ltb n 10 then (48 + n) ∷ [] else rest ++ (48 + n % 10) ∷ []

unfoldable pub decimal : ℕ → Bytes
unfolding decimal_on
decimal n = decimal_on (suc n) n

-- `time.UnixMilli(tid/1000_000)` in nanoseconds: the division rounds towards zero.
unfoldable pub whole_millis : ℤ → ℤ
whole_millis (pos n) = pos (n / 1000000 * 1000000)
whole_millis (negsuc n) =
    let m = suc n / 1000000 * 1000000 in if m == 0 then pos 0 else negsuc (m - 1)

abbrev clipped : ℕ → ℕ
clipped n = if ltb n int64_bound then n else int64_bound - 1

-- `time.Since(t)` at the time `now`: a difference that no Duration holds is the nearest that one does.
unfoldable pub since : ℕ → ℤ → ℤ
since now (pos t) = if leb t now then pos (clipped (now - t)) else negsuc (clipped (t - now - 1))
since now (negsuc t) = pos (clipped (now + suc t))

unfoldable pub int_lt : ℤ → ℤ → Bool
int_lt (pos a) (pos b) = ltb a b
int_lt (pos a) (negsuc b) = false
int_lt (negsuc a) (pos b) = true
int_lt (negsuc a) (negsuc b) = ltb b a

digits_value-append :
    (xs : Bytes) (acc n d : ℕ)
    → digits_value acc xs ≡ some n
    → d < 10
    → digits_value acc (xs ++ (48 + d) ∷ []) ≡ some (n * 10 + d)
unfolding digits_value
digits_value-append [] acc n d h l = ground arith
digits_value-append (c ∷ cs) acc n d h l = elim (Bool-cases (is_digit c)) [
  | inl e ↦ rw e (digits_value-append cs (acc * 10 + (c - 48)) n d (rw e at h) l)
  | inr e ↦ absurd (let h' : none ≡ some n = rw e at h in cc)
]

decimal_on-value : (fuel n : ℕ) → n < fuel → digits_value 0 (decimal_on fuel n) ≡ some n
unfolding decimal_on digits_value
decimal_on-value zero n h = absurd (omega (arith, h))
decimal_on-value (suc fuel) n h = elim (Bool-cases (ltb n 10)) [
  | inl e ↦ rw e (ground arith)
  | inr e ↦ rw e (
      digits_value-append (decimal_on fuel (n / 10)) 0 (n / 10) (n % 10)
        (decimal_on-value fuel (n / 10) (ground arith)) (ground arith)
      ∙ ap some (omega arith))
]

decimal_on-head :
    (fuel n : ℕ) → n < fuel → (c : ℕ) × (cs : Bytes) × (decimal_on fuel n ≡ c ∷ cs) × (48 ≤ c)
unfolding decimal_on
decimal_on-head zero n h = absurd (omega (arith, h))
decimal_on-head (suc fuel) n h = elim (Bool-cases (ltb n 10)) [
  | inl e ↦ rw e (48 + n, [], refl, omega arith)
  | inr e ↦
      let (c, cs, q, l) = decimal_on-head fuel (n / 10) (ground arith) in
      rw (e, q) (c, cs ++ (48 + n % 10) ∷ [], refl, l)
]

parse_int-digits :
    (c : ℕ) (cs : Bytes) (n : ℕ)
    → 48 ≤ c
    → digits_value 0 (c ∷ cs) ≡ some n
    → n < int64_bound
    → parse_int (c ∷ cs) ≡ some (pos n)
unfolding parse_int unsigned
parse_int-digits c cs n l v h =
    let minus : (c == 45) ≡ false = ground arith in
    let plus : (c == 43) ≡ false = ground arith in
    rw (minus, plus, v) (ap (λ b. if b then some (pos n) else none) (lt→ltb n int64_bound h))

-- The identifier that a message is kept under, a time in nanoseconds, is read back as that time when
-- the message is replayed, until the year 2262.
pub parse_int-decimal : (n : ℕ) → n < int64_bound → parse_int (decimal n) ≡ some (pos n)
unfolding decimal
parse_int-decimal n h =
    let (c, cs, q, l) = decimal_on-head (suc n) n (omega arith) in
    ap parse_int q
    ∙ parse_int-digits c cs n l
        (ap (digits_value 0) (sym q) ∙ decimal_on-value (suc n) n (omega arith)) h

-- A number has at least one digit.
pub decimal-cons : (n : ℕ) → (c : ℕ) × (cs : Bytes) × (decimal n ≡ c ∷ cs)
unfolding decimal
decimal-cons n = let (c, cs, q, l) = decimal_on-head (suc n) n (omega arith) in (c, cs, q)
