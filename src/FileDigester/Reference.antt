-- ===== src/FileDigester/Reference.antt =====
-- What `FileDigester` makes of a line, column by column.
use real_time_cr.Prelude.{
  ◌==◌, Bool-cases, Option-cases, get_elem?, ℕ, zero, suc, ◌+◌, ◌-◌, ◌≤◌, ◌<◌, ◌≡◌, refl, ap, ◌∙◌,
  inl, inr, Option, none, some, List, [], ◌∷◌, arith,
}
use real_time_cr.FileDigester.{digest_columns, OmsScripInfo, set_column, find_bar}
use real_time_cr.Contract.{OmsScripInfo}
use real_time_cr.FileDigester.Columns.{columns, columns-find_bar-none, columns-find_bar-some}
use real_time_cr.FileDigester.Text.{find_bar}

-- The rounds of the loop over the columns that are there.
module _ {ℓ} {A : Type ℓ} (step : ℕ → List ℕ → A → A) where
  pub run : ℕ → ℕ → List (List ℕ) → A → A
  run zero i ts a = a
  run (suc n) i [] a = a
  run (suc n) i (t ∷ ts) a = run n (suc i) ts (step i t a)

  -- The column `k`, where it is there.
  abbrev pub at : ℕ → Option (List ℕ) → A → A
  at k none a = a
  at k (some t) a = step k t a

  run-nil : (n i : ℕ) (a : A) → run n i [] a ≡ a
  unfolding run
  run-nil zero i a = refl
  run-nil (suc n) i a = refl

  pub run-idle :
      (n i : ℕ) (ts : List (List ℕ)) (a : A)
      → ((j : ℕ) (t : List ℕ) (b : A) → i ≤ j → step j t b ≡ b)
      → run n i ts a ≡ a
  unfolding run
  run-idle zero i ts a h = refl
  run-idle (suc n) i [] a h = refl
  run-idle (suc n) i (t ∷ ts) a h =
      run-idle n (suc i) ts (step i t a) (λ j u b le. h j u b (omega arith)) ∙ h i t a (omega arith)

  get_elem?-here :
      (k i : ℕ) (t : List ℕ) (ts : List (List ℕ)) → i ≡ k → get_elem? (t ∷ ts) (k - i) ≡ some t
  get_elem?-here k i t ts e = let z : k - i ≡ 0 = omega arith in rw z refl

  get_elem?-later :
      (k i : ℕ) (t : List ℕ) (ts : List (List ℕ))
      → i < k
      → get_elem? (t ∷ ts) (k - i) ≡ get_elem? ts (k - suc i)
  get_elem?-later k i t ts lt = let z : k - i ≡ suc (k - suc i) = omega arith in rw z refl

  -- One column counts.
  pub run-at :
      (k n i : ℕ) (ts : List (List ℕ)) (a : A)
      → i ≤ k
      → k < i + n
      → ((j : ℕ) (t : List ℕ) (b : A) → i ≤ j → ¬ (j ≡ k) → step j t b ≡ b)
      → run n i ts a ≡ at k (get_elem? ts (k - i)) a
  unfolding run
  run-at k zero i ts a le lt h = absurd (omega arith)
  run-at k (suc n) i [] a le lt h = refl
  run-at k (suc n) i (t ∷ ts) a le lt h = elim (Bool-cases (i == k)) [
    | inl same ↦
        let e : i ≡ k = ground arith in
        rw (get_elem?-here k i t ts e) (
          run-idle n (suc i) ts (step i t a) (λ j u b le1. h j u b (omega arith) (λ q. omega arith))
          ∙ ap (λ j. step j t a) e)
    | inr other ↦
        let lower : i < k = ground arith in
        rw (get_elem?-later k i t ts lower) (
          run-at k n (suc i) ts (step i t a) lower (omega arith)
            (λ j u b le1 ne. h j u b (omega arith) ne)
          ∙ ap (at k (get_elem? ts (k - suc i))) (h i t a (omega arith) (λ q. omega arith)))
  ]

  -- Two columns next to each other count.
  pub run-at_two :
      (k n i : ℕ) (ts : List (List ℕ)) (a : A)
      → i ≤ k
      → suc k < i + n
      → ((j : ℕ) (t : List ℕ) (b : A) → i ≤ j → ¬ (j ≡ k) → ¬ (j ≡ suc k) → step j t b ≡ b)
      → run n i ts a ≡ at (suc k) (get_elem? ts (suc k - i)) (at k (get_elem? ts (k - i)) a)
  unfolding run
  run-at_two k zero i ts a le lt h = absurd (omega arith)
  run-at_two k (suc n) i [] a le lt h = refl
  run-at_two k (suc n) i (t ∷ ts) a le lt h = elim (Bool-cases (i == k)) [
    | inl same ↦
        let e : i ≡ k = ground arith in
        rw (get_elem?-here k i t ts e, get_elem?-later (suc k) i t ts (omega arith))
          (run-at (suc k) n (suc i) ts (step i t a) (omega arith) (omega arith)
              (λ j u b le1 ne. h j u b (omega arith) (λ q. omega arith) ne)
            ∙ ap (λ j. at (suc k) (get_elem? ts (suc k - suc i)) (step j t a)) e)
    | inr other ↦
        let lower : i < k = ground arith in
        rw (get_elem?-later k i t ts lower, get_elem?-later (suc k) i t ts (omega arith))
          (run-at_two k n (suc i) ts (step i t a) lower (omega arith)
              (λ j u b le1 ne ne2. h j u b (omega arith) ne ne2)
            ∙ ap
                (λ b. at (suc k) (get_elem? ts (suc k - suc i)) (at k (get_elem? ts (k - suc i)) b))
                (h i t a (omega arith) (λ q. omega arith) (λ q. omega arith)))
  ]

-- A part of the record, of which each column makes what `step` says.
pub run-part {ℓ} :
    {A : Type ℓ} (part : OmsScripInfo → A) (step : ℕ → List ℕ → A → A)
    → ((j : ℕ) (t : List ℕ) (o : OmsScripInfo) → part (set_column j t o) ≡ step j t (part o))
    → (n i : ℕ) (rest : List ℕ) (o : OmsScripInfo)
    → part (digest_columns n i rest o) ≡ run step n i (columns rest) (part o)
unfolding run digest_columns
run-part part step h zero i rest o = refl
run-part part step h (suc n) i rest o = elim (Option-cases (find_bar rest)) [
  | inl e ↦
      let none_left : columns rest ≡ [] = columns-find_bar-none rest e in
      rw (digest_columns, e, none_left)
        (run-part part step h n (suc i) rest o ∙ rw (none_left, run-nil step n (suc i)) refl)
  | inr ((t, behind), e) ↦
      rw (digest_columns, e, columns-find_bar-some rest t behind e)
        (run-part part step h n (suc i) behind (set_column i t o)
          ∙ ap (run step n (suc i) (columns behind)) (h i t o))
]
