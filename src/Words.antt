-- ===== src/Words.antt =====
-- Machine integers and doubles as their bit patterns. Signed arithmetic wraps, as it does on the
-- machine that the program is built for; `signed32` gives the integer that a pattern stands for.
use native.Mathlib.Nat.{div-le_self}
use real_time_cr.Prelude.{
  ltb, leb, ◌==◌, if◌then◌else◌, Bool-cases, inl, inr, division_by_zero, Exec, ok, fault, ◌>>=◌, ℕ,
  ◌+◌, ◌-◌, ◌*◌, ◌/◌, ◌%◌, ◌^◌, ◌<◌, ◌≡◌, refl, Bool, true, ◌&&◌, ◌||◌, arith,
}

-- `int32_t`: sum, difference and order.
abbrev pub add32 : ℕ → ℕ → ℕ
add32 a b = (a + b) % 2 ^ 32

abbrev pub sub32 : ℕ → ℕ → ℕ
sub32 a b = (a + (2 ^ 32 - b % 2 ^ 32)) % 2 ^ 32

-- The sign bit flipped puts the patterns in the order of the integers.
abbrev pub order32 : ℕ → ℕ
order32 a = (a + 2 ^ 31) % 2 ^ 32

abbrev pub lt32 : ℕ → ℕ → Bool
lt32 a b = ltb (order32 a) (order32 b)

abbrev pub sub64 : ℕ → ℕ → ℕ
sub64 a b = (a + (2 ^ 64 - b % 2 ^ 64)) % 2 ^ 64

abbrev pub lt64 : ℕ → ℕ → Bool
lt64 a b = ltb ((a + 2 ^ 63) % 2 ^ 64) ((b + 2 ^ 63) % 2 ^ 64)

-- `int64_t` from `int32_t`, by sign extension.
abbrev pub widen : ℕ → ℕ
widen a = if ltb a (2 ^ 31) then a else a + (2 ^ 64 - 2 ^ 32)

abbrev pub add64 : ℕ → ℕ → ℕ
add64 a b = (a + b) % 2 ^ 64

abbrev pub mul64 : ℕ → ℕ → ℕ
mul64 a b = (a * b) % 2 ^ 64

abbrev pub narrow : ℕ → ℕ
narrow a = a % 2 ^ 32

is_negative : ℕ → Bool
is_negative a = leb (2 ^ 63) a

magnitude : ℕ → ℕ
unfolding is_negative
magnitude a = if is_negative a then 2 ^ 64 - a else a

-- `int64_t` division, towards zero. The machine traps on 0 and on the quotient 2 ^ 63.
unfoldable pub div64 : ℕ → ℕ → Exec ℕ
unfolding is_negative magnitude
div64 a b =
    let q = magnitude a / magnitude b in
    let same = (is_negative a && is_negative b) || (ltb a (2 ^ 63) && ltb b (2 ^ 63)) in
    if b == 0
    then fault division_by_zero
    else if a == 2 ^ 63 && b == 2 ^ 64 - 1
    then fault division_by_zero
    else if same
    then ok q
    else ok ((2 ^ 64 - q) % 2 ^ 64)

-- `(int64_t)d` of an IEEE double: `cvttsd2si`, which gives the pattern of -2 ^ 63 out of range.
exponent : ℕ → ℕ
exponent d = d / 2 ^ 52 % 2 ^ 11

truncated : ℕ → ℕ
unfolding exponent
truncated d = (2 ^ 52 + d % 2 ^ 52) * 2 ^ (exponent d - 1023) / 2 ^ 52

unfoldable pub double_to_int64 : ℕ → ℕ
unfolding exponent truncated
double_to_int64 d =
    if ltb (exponent d) 1023
    then 0
    else if ltb (exponent d) 1086
    then (if ltb d (2 ^ 63) then truncated d else 2 ^ 64 - truncated d)
    else 2 ^ 63

-- Tests: 1.0, -2.5, 0.0, 2 ^ 63 and not-a-number.
double_to_int64_runs :
    (double_to_int64 0x3ff0_0000_0000_0000 ≡ 1)
    × (double_to_int64 0xc004_0000_0000_0000 ≡ 2 ^ 64 - 2)
    × (double_to_int64 0 ≡ 0)
    × (double_to_int64 0x43e0_0000_0000_0000 ≡ 2 ^ 63)
    × (double_to_int64 0x7ff8_0000_0000_0000 ≡ 2 ^ 63)
unfolding double_to_int64
double_to_int64_runs = (refl, refl, refl, refl, refl)

div64_runs : (div64 (2 ^ 64 - 7) 2 ≡ ok (2 ^ 64 - 3)) × (div64 7 0 ≡ fault division_by_zero)
unfolding div64
div64_runs = (refl, refl)

-- `int32_t` division.
unfoldable pub div32 : ℕ → ℕ → Exec ℕ
unfolding div64
div32 a b =
    if a == 2 ^ 31 && b == 2 ^ 32 - 1
    then fault division_by_zero
    else (div64 (widen a) (widen b) >>= λ q. ok (narrow q))

-- The quotient of two `int32_t` that are not negative.
pub div32-positive : (a b : ℕ) → a < 2 ^ 31 → 0 < b → b < 2 ^ 31 → div32 a b ≡ ok (a / b)
unfolding div32 div64 is_negative magnitude
div32-positive a b lt pos lt2 =
    let small : ltb a (2 ^ 31) ≡ true = ground arith in
    let small2 : ltb b (2 ^ 31) ≡ true = ground arith in
    let le = div-le_self a b in rw (small, small2) (ground (arith, le))

pub div64-positive : (a b : ℕ) → 0 < b → b < 2 ^ 31 → (q : ℕ) × (div64 a b ≡ ok q)
unfolding div64 is_negative magnitude
div64-positive a b pos lt = elim (Bool-cases (ltb a (2 ^ 63))) [
  | inl small ↦ (a / b, ground arith)
  | inr negative ↦ ((2 ^ 64 - (2 ^ 64 - a) / b) % 2 ^ 64, ground arith)
]
