-- ===== src/FileDigester/Decimal.antt =====
-- Numbers in decimal digits, as the contract file has them, read back by `atoi`.
use real_time_cr.Prelude.{
  ltb, if◌then◌else◌, Bool-cases, All, ℕ, zero, suc, ◌+◌, ◌-◌, ◌*◌, ◌/◌, ◌%◌, ◌^◌, ◌≤◌, ◌<◌, ◌≡◌,
  refl, ◌∙◌, inl, inr, List, [], ◌∷◌, arith, min,
}
use real_time_cr.FileDigester.Text.{read_digits, atoi, skip_space, signed_digits}

-- The least number with more than `k` digits.
pub limit : ℕ → ℕ
limit zero = 1
limit (suc k) = 10 * limit k

-- The number `n`, of at most `k` digits, in front of `out`.
pub show : ℕ → ℕ → List ℕ → List ℕ
show zero n out = out
show (suc k) n out =
    let front = show k (n / 10) ((b'0' + n % 10) ∷ out) in
    if ltb n 10 then (b'0' + n) ∷ out else front

abbrev pub decimal : ℕ → List ℕ
decimal n = show 10 n []

read_digits-show :
    (k n : ℕ) (out : List ℕ) → n < limit k → read_digits 0 (show k n out) ≡ read_digits n out
unfolding limit show read_digits
read_digits-show zero n out lt = ground arith
read_digits-show (suc k) n out lt =
    ground (arith, read_digits-show k (n / 10) ((b'0' + n % 10) ∷ out) (omega arith))

-- All bytes are digits.
abbrev pub AllDigits : List ℕ → Type 0
AllDigits = All (λ c. (b'0' ≤ c) × (c ≤ b'9'))

pub show-AllDigits : (k n : ℕ) (out : List ℕ) → AllDigits out → AllDigits (show k n out)
unfolding show
show-AllDigits zero n out h = h
show-AllDigits (suc k) n out h = elim (Bool-cases (ltb n 10)) [
  | inl e ↦ rw e ((omega arith, ground arith), h)
  | inr e ↦ rw e (show-AllDigits k (n / 10) _ ((omega arith, omega arith), h))
]

-- Digits start with no space and no sign.
atoi-digits : (s : List ℕ) → AllDigits s → atoi s ≡ min (read_digits 0 s) (2 ^ 63 - 1) % 2 ^ 32
unfolding atoi skip_space signed_digits read_digits
atoi-digits [] h = refl
atoi-digits (c ∷ s) ((low, high), h) = ground arith

-- Every positive `int32_t` is read back from its digits.
pub atoi-decimal : (n : ℕ) → n < 2 ^ 31 → atoi (decimal n) ≡ n
unfolding read_digits limit
atoi-decimal n lt =
    let read : read_digits 0 (decimal n) ≡ n = read_digits-show 10 n [] (omega arith) in
    atoi-digits (decimal n) (show-AllDigits 10 n [] tt) ∙ rw read (omega arith)
