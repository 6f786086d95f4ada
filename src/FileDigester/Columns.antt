-- ===== src/FileDigester/Columns.antt =====
-- A line of the contract file by its columns.
use real_time_cr.Prelude.{
  ◌==◌, if◌then◌else◌, Bool-cases, Option-cases, ℕ, ◌≡◌, refl, inl, inr, none, some, List, [], ◌∷◌,
  arith,
}
use real_time_cr.FileDigester.Text.{find_bar}

-- The texts that a bar ends, in order.
abbrev extend_first : ℕ → List (List ℕ) → List (List ℕ)
extend_first c [] = []
extend_first c (t ∷ ts) = (c ∷ t) ∷ ts

unfoldable pub columns : List ℕ → List (List ℕ)
columns [] = []
columns (c ∷ s) = let rest = columns s in if c == b'|' then [] ∷ rest else extend_first c rest

pub columns-find_bar-none : (s : List ℕ) → find_bar s ≡ none → columns s ≡ []
unfolding columns find_bar
columns-find_bar-none [] h = refl
columns-find_bar-none (c ∷ s) h = elim (Bool-cases (c == b'|')) [
  | inl bar ↦ absurd (ground arith)
  | inr other ↦ elim (Option-cases (find_bar s)) [
    | inl e ↦ ground (arith, columns-find_bar-none s e)
    | inr (p, e) ↦ absurd (ground arith)
  ]
]

pub columns-find_bar-some :
    (s text behind : List ℕ) → find_bar s ≡ some (text, behind) → columns s ≡ text ∷ columns behind
unfolding columns find_bar
columns-find_bar-some [] text behind h = cc
columns-find_bar-some (c ∷ s) text behind h = elim (Bool-cases (c == b'|')) [
  | inl bar ↦ ground arith
  | inr other ↦ elim (Option-cases (find_bar s)) [
    | inl e ↦ absurd (ground arith)
    | inr ((t, b), e) ↦ ground (arith, columns-find_bar-some s t b e)
  ]
]
