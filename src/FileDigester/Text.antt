-- ===== src/FileDigester/Text.antt =====
-- The text functions of C that `FileDigester` calls: `getline`, `find`, `atoi` and `strncmp`.
use real_time_cr.Prelude.{
  leb, ◌==◌, if◌then◌else◌, ℕ, ◌+◌, ◌-◌, ◌*◌, ◌%◌, ◌^◌, ◌≡◌, refl, Bool, true, false, ◌&&◌, ◌||◌,
  Option, none, some, List, [], ◌∷◌, min,
}
use real_time_cr.Words.{narrow}

-- `isspace`.
abbrev pub is_space : ℕ → Bool
is_space c = c == 32 || (leb 9 c && leb c 13)

abbrev pub is_digit : ℕ → Bool
is_digit c = leb b'0' c && leb c b'9'

unfoldable pub skip_space : List ℕ → List ℕ
skip_space [] = []
skip_space (c ∷ s) = let rest = skip_space s in if is_space c then rest else c ∷ s

-- The digits at the front, behind those that make up `n`.
unfoldable pub read_digits : ℕ → List ℕ → ℕ
read_digits n [] = n
read_digits n (c ∷ s) =
    let more = read_digits (n * 10 + (c - b'0')) s in if is_digit c then more else n

-- `strtol` in base 10, which stops at the bounds of `long`.
unfoldable pub signed_digits : List ℕ → ℕ
unfolding read_digits
signed_digits [] = 0
signed_digits (c ∷ s) =
    if c == b'-'
    then (2 ^ 64 - min (read_digits 0 s) (2 ^ 63)) % 2 ^ 64
    else if c == b'+'
    then min (read_digits 0 s) (2 ^ 63 - 1)
    else min (read_digits 0 (c ∷ s)) (2 ^ 63 - 1)

-- `atoi`, and `atol` where its result is assigned to an `int32_t`.
unfoldable pub atoi : List ℕ → ℕ
unfolding skip_space signed_digits
atoi s = narrow (signed_digits (skip_space s))

-- A string up to its zero byte.
unfoldable pub c_string : List ℕ → List ℕ
c_string [] = []
c_string (c ∷ s) = let rest = c_string s in if c == 0 then [] else c ∷ rest

-- `getline`, over and over: each line with the newline that ends it.
abbrev extend : ℕ → List (List ℕ) → List (List ℕ)
extend c [] = (c ∷ []) ∷ []
extend c (l ∷ ls) = (c ∷ l) ∷ ls

unfoldable pub lines : List ℕ → List (List ℕ)
lines [] = []
lines (c ∷ s) = let rest = lines s in if c == b'\n' then (c ∷ []) ∷ rest else extend c rest

-- `find('|', startPoint)`: what lies before the bar, and what lies behind it.
abbrev before : ℕ → Option (List ℕ × List ℕ) → Option (List ℕ × List ℕ)
before c none = none
before c (some (text, behind)) = some (c ∷ text, behind)

unfoldable pub find_bar : List ℕ → Option (List ℕ × List ℕ)
find_bar [] = none
find_bar (c ∷ s) = let found = find_bar s in if c == b'|' then some ([], s) else before c found

-- Equal texts.
unfoldable pub same_text : List ℕ → List ℕ → Bool
same_text [] [] = true
same_text [] (d ∷ t) = false
same_text (c ∷ s) [] = false
same_text (c ∷ s) (d ∷ t) = c == d && same_text s t

atoi_runs :
    (atoi (b' ' ∷ b'4' ∷ b'2' ∷ b'x' ∷ []) ≡ 42)
    × (atoi (b'-' ∷ b'1' ∷ []) ≡ 2 ^ 32 - 1)
    × (atoi [] ≡ 0)
    × (atoi (b'4' ∷ b'2' ∷ b'9' ∷ b'4' ∷ b'9' ∷ b'6' ∷ b'7' ∷ b'2' ∷ b'9' ∷ b'7' ∷ []) ≡ 1)
unfolding atoi
atoi_runs = (refl, refl, refl, refl)

lines_run :
    lines (b'a' ∷ b'\n' ∷ b'\n' ∷ b'b' ∷ []) ≡ (b'a' ∷ b'\n' ∷ []) ∷ (b'\n' ∷ []) ∷ (b'b' ∷ []) ∷ []
unfolding lines
lines_run = refl
