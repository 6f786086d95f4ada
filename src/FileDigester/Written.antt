-- ===== src/FileDigester/Written.antt =====
-- A file in the layout of the contract file, taken apart again: lines, and columns that a bar ends.
use mathlib.Core.List.{append_assoc}
use real_time_cr.Prelude.{All, ℕ, ◌≡◌, refl, ap, ◌∙◌, List, [], ◌∷◌, ◌++◌, arith}
use real_time_cr.FileDigester.Text.{lines, c_string}
use real_time_cr.FileDigester.Columns.{columns}

-- The bytes of a column end no column, no line and no string.
abbrev pub IsPlain : ℕ → Type 0
IsPlain c = ¬ (c ≡ 0) × ¬ (c ≡ b'|') × ¬ (c ≡ b'\n')

abbrev pub AreColumns : List (List ℕ) → Type 0
AreColumns = All (All IsPlain)

abbrev pub write_columns : List (List ℕ) → List ℕ
write_columns [] = b'\n' ∷ []
write_columns (t ∷ ts) = t ++ (b'|' ∷ write_columns ts)

abbrev pub write_lines : List (List (List ℕ)) → List ℕ
write_lines [] = []
write_lines (l ∷ ls) = write_columns l ++ write_lines ls

columns-text : (t s : List ℕ) → All IsPlain t → columns (t ++ (b'|' ∷ s)) ≡ t ∷ columns s
unfolding columns
columns-text [] s h = refl
columns-text (c ∷ t) s ((n, b, l), h) = ground (arith, columns-text t s h)

pub columns-write_columns : (ts : List (List ℕ)) → AreColumns ts → columns (write_columns ts) ≡ ts
unfolding columns
columns-write_columns [] h = refl
columns-write_columns (t ∷ ts) (p, h) =
    columns-text t (write_columns ts) p ∙ ap (λ l. t ∷ l) (columns-write_columns ts h)

c_string-append : (t s : List ℕ) → All IsPlain t → c_string (t ++ s) ≡ t ++ c_string s
unfolding c_string
c_string-append [] s h = refl
c_string-append (c ∷ t) s ((n, b, l), h) = ground (arith, c_string-append t s h)

pub c_string-write_columns :
    (ts : List (List ℕ)) → AreColumns ts → c_string (write_columns ts) ≡ write_columns ts
unfolding c_string
c_string-write_columns [] h = refl
c_string-write_columns (t ∷ ts) (p, h) =
    c_string-append t (b'|' ∷ write_columns ts) p
    ∙ ap (λ l. t ++ (b'|' ∷ l)) (c_string-write_columns ts h)

lines-text :
    (t s l : List ℕ) (ls : List (List ℕ))
    → All IsPlain t
    → lines s ≡ l ∷ ls
    → lines (t ++ s) ≡ (t ++ l) ∷ ls
unfolding lines
lines-text [] s l ls h e = e
lines-text (c ∷ t) s l ls ((n, b, p), h) e = ground (arith, lines-text t s l ls h e)

lines-columns :
    (ts : List (List ℕ)) (s : List ℕ)
    → AreColumns ts
    → lines (write_columns ts ++ s) ≡ write_columns ts ∷ lines s
unfolding lines
lines-columns [] s h = refl
lines-columns (t ∷ ts) s (p, h) =
    let rest = lines-columns ts s h in
    ap lines (append_assoc t (b'|' ∷ write_columns ts) s)
    ∙ lines-text t (b'|' ∷ (write_columns ts ++ s)) (b'|' ∷ write_columns ts) (lines s) p
        (rw rest refl)

-- Each line of the file, as it was written.
abbrev pub written : List (List (List ℕ)) → List (List ℕ)
written [] = []
written (l ∷ ls) = write_columns l ∷ written ls

pub lines-write_lines :
    (ls : List (List (List ℕ))) → All AreColumns ls → lines (write_lines ls) ≡ written ls
unfolding lines
lines-write_lines [] h = refl
lines-write_lines (l ∷ ls) (p, h) =
    lines-columns l (write_lines ls) p ∙ ap (λ r. write_columns l ∷ r) (lines-write_lines ls h)
