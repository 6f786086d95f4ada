-- ===== src/FileDigester/Store.antt =====
-- What the map holds after `FileDigester`.
use real_time_cr.Prelude.{
  ◌==◌, if◌then◌else◌, Bool-cases, Option-cases, drop, ℕ, ◌≡◌, refl, sym, ap, ◌∙◌, inl, inr, Option,
  none, some, List, [], ◌∷◌, ◌++◌, arith,
}
use real_time_cr.FileDigester.Record.{contract_of, digest_line-eq}
use real_time_cr.Contract.{find, OmsScripInfo, TokenDataStore}
use real_time_cr.FileDigester.{
  digest_lines, insert_contract, c_string, digest_line, file_digester, lines,
}
use real_time_cr.FileDigester.Columns.{columns}
use real_time_cr.FileDigester.Text.{c_string, lines}

-- The contracts that the lines describe.
abbrev pub contracts_of : List (List ℕ) → List OmsScripInfo
contracts_of [] = []
contracts_of (l ∷ ls) = contract_of (columns (c_string l)) ∷ contracts_of ls

-- The first one with the token.
abbrev pub first_with : ℕ → List OmsScripInfo → Option OmsScripInfo
first_with t [] = none
first_with t (o ∷ os) = if o.token == t then some o else first_with t os

abbrev pub or_else : Option OmsScripInfo → Option OmsScripInfo → Option OmsScripInfo
or_else none p = p
or_else (some o) p = some o

find-append :
    (td : TokenDataStore) (k t : ℕ) (info : OmsScripInfo)
    → find (td ++ ((k, info) ∷ [])) t ≡ or_else (find td t) (if k == t then some info else none)
unfolding find
find-append [] k t info = refl
find-append ((j, old) ∷ td) k t info = ground (arith, find-append td k t info)

or_else_assoc : (o p q : Option OmsScripInfo) → or_else (or_else o p) q ≡ or_else o (or_else p q)
or_else_assoc none p q = refl
or_else_assoc (some x) p q = refl

or_else-none : (o : Option OmsScripInfo) → or_else o none ≡ o
or_else-none none = refl
or_else-none (some x) = refl

-- A key that is there changes nothing.
known_stays :
    (td : TokenDataStore) (o : OmsScripInfo) (t : ℕ) {old : OmsScripInfo}
    → find td o.token ≡ some old
    → find td t ≡ or_else (find td t) (if o.token == t then some o else none)
known_stays td o t {old} e = elim (Bool-cases (o.token == t)) [
  | inl same ↦
      let same_token : o.token ≡ t = ground arith in
      let here : find td t ≡ some old = ap (find td) (sym same_token) ∙ e in rw here refl
  | inr other ↦ rw other (sym (or_else-none (find td t)))
]

find-insert_contract :
    (td : TokenDataStore) (o : OmsScripInfo) (t : ℕ)
    → find (insert_contract td o) t ≡ or_else (find td t) (if o.token == t then some o else none)
unfolding insert_contract
find-insert_contract td o t = elim (Option-cases (find td o.token)) [
  | inl e ↦ rw (insert_contract, e) (find-append td o.token t o)
  | inr (old, e) ↦ rw (insert_contract, e) (known_stays td o t e)
]

first_with-cons :
    (o : OmsScripInfo) (os : List OmsScripInfo) (t : ℕ)
    → or_else (if o.token == t then some o else none) (first_with t os) ≡ first_with t (o ∷ os)
first_with-cons o os t = ground arith

find-digest_lines :
    (ls : List (List ℕ)) (td : TokenDataStore) (t : ℕ)
    → find (digest_lines ls td) t ≡ or_else (find td t) (first_with t (contracts_of ls))
unfolding digest_lines
find-digest_lines [] td t = sym (or_else-none (find td t))
find-digest_lines (l ∷ ls) td t =
    let o = digest_line (c_string l) in
    find-digest_lines ls (insert_contract td o) t
    ∙ ap (λ p. or_else p (first_with t (contracts_of ls))) (find-insert_contract td o t)
    ∙ or_else_assoc (find td t) (if o.token == t then some o else none)
        (first_with t (contracts_of ls))
    ∙ ap (or_else (find td t)) (first_with-cons o (contracts_of ls) t)
    ∙ ap (λ c. or_else (find td t) (first_with t (c ∷ contracts_of ls)))
        (digest_line-eq (c_string l))

-- After `FileDigester` a token has the contract that it had before; a token that had none has the contract
-- of the first line, after the line with the version, that describes one with this token, as its columns say.
pub find-file_digester :
    (bytes : List ℕ) (td : TokenDataStore) (t : ℕ)
    → find (file_digester (some bytes) td).1 t
      ≡ or_else (find td t) (first_with t (contracts_of (drop 1 (lines bytes))))
unfolding file_digester
find-file_digester bytes td t = find-digest_lines (drop 1 (lines bytes)) td t
