-- ===== src/FileDigester/RoundTrip.antt =====
-- Contracts written as the contract file has them, read back by `FileDigester`.
use real_time_cr.Prelude.{
  take, drop, All, ℕ, ◌^◌, ◌<◌, ◌≡◌, refl, sym, ap, ◌∙◌, some, List, [], ◌∷◌, ◌++◌, arith, take-all,
}
use real_time_cr.FileDigester.Record.{
  strike_of, contract_of, series_type, price_type, digest_line-eq,
}
use real_time_cr.FileDigester.Text.{same_text, atoi, lines, c_string}
use real_time_cr.Contract.{OmsScripInfo, TokenDataStore, find}
use real_time_cr.FileDigester.Written.{
  IsPlain, write_columns, AreColumns, write_lines, written, lines-write_lines,
  c_string-write_columns, columns-write_columns,
}
use real_time_cr.FileDigester.Decimal.{decimal, atoi-decimal}
use real_time_cr.FileDigester.{digest_line, c_string, file_digester}
use real_time_cr.FileDigester.Store.{or_else, first_with, find-file_digester, contracts_of}
use real_time_cr.FileDigester.Columns.{columns}
use real_time_cr.FileDigester.Cells.{
  cells_of, price_text, IsContract, cell, HasType, cells-AreColumns, is_future, is_other, is_call,
  is_put,
}

-- A price below 2 ^ 31 is not the mark of a future.
price_back :
    (price : ℕ)
    → price < 2 ^ 31
    → (strike_of (atoi (decimal price)) ≡ price) × (price_type (atoi (decimal price)) 0 ≡ 0)
price_back price lt = rw (atoi-decimal price lt) (ground arith, ground arith)

strike-back :
    {type price : ℕ} {s : List ℕ}
    → price < 2 ^ 31
    → HasType type price s
    → strike_of (atoi (price_text type price)) ≡ price
unfolding price_text atoi
strike-back lt (is_future a b) = refl
strike-back {price = p} lt is_call = (price_back p lt).0
strike-back {price = p} lt is_put = (price_back p lt).0
strike-back {price = p} lt (is_other a b) = (price_back p lt).0

type-back :
    {type price : ℕ} {s : List ℕ}
    → price < 2 ^ 31
    → HasType type price s
    → series_type s (price_type (atoi (price_text type price)) 0) ≡ type
unfolding price_text atoi same_text
type-back lt (is_future a b) = ground arith
type-back {price = p} lt is_call = refl
type-back {price = p} lt is_put = refl
type-back {price = p} lt (is_other a b) = ground (arith, (price_back p lt).1)

-- The columns say the contract they were made of.
contract_of-cells : (o : OmsScripInfo) → IsContract o → contract_of (cells_of o) ≡ o
unfolding contract_of cell
contract_of-cells o h =
    let type = o.custom_instrument_type in
    let price = o.strike_price in
    let series_eq : take 2 o.series ≡ o.series = take-all 2 o.series h.series.0 in
    λ i. record {
      expiry_date = atoi-decimal o.expiry_date h.expiry_date i;
      strike_price = strike-back h.strike_price h.has_type i;
      token = atoi-decimal o.token h.token i;
      board_lot_qty = atoi-decimal o.board_lot_qty h.board_lot_qty i;
      min_lot_qty = atoi-decimal o.min_lot_qty h.min_lot_qty i;
      tick_size = atoi-decimal o.tick_size h.tick_size i;
      custom_instrument_type =
          (ap (λ s. series_type s (price_type (atoi (price_text type price)) 0)) series_eq
              ∙ type-back h.strike_price h.has_type)
            i;
      symbol = take-all 10 o.symbol h.symbol.0 i;
      series = series_eq i;
      symbol_name = take-all 25 o.symbol_name h.symbol_name.0 i;
      total_traded = sym h.total_traded i;
    }

-- A line that is written of a contract is read as that contract.
pub digest_line-write_columns :
    (o : OmsScripInfo) → IsContract o → digest_line (c_string (write_columns (cells_of o))) ≡ o
digest_line-write_columns o h =
    let plain = cells-AreColumns o 1 68 h in
    digest_line-eq (c_string (write_columns (cells_of o)))
    ∙ ap (λ s. contract_of (columns s)) (c_string-write_columns (cells_of o) plain)
    ∙ ap contract_of (columns-write_columns (cells_of o) plain)
    ∙ contract_of-cells o h

abbrev pub table : List OmsScripInfo → List (List (List ℕ))
table [] = []
table (o ∷ os) = cells_of o ∷ table os

table-AreColumns : (os : List OmsScripInfo) → All IsContract os → All AreColumns (table os)
table-AreColumns [] h = tt
table-AreColumns (o ∷ os) (p, h) = (cells-AreColumns o 1 68 p, table-AreColumns os h)

contracts-written :
    (os : List OmsScripInfo) → All IsContract os → contracts_of (written (table os)) ≡ os
contracts-written [] h = refl
contracts-written (o ∷ os) (p, h) =
    ap (λ c. c ∷ contracts_of (written (table os)))
      (sym (digest_line-eq _) ∙ digest_line-write_columns o p)
    ∙ ap (λ r. o ∷ r) (contracts-written os h)

-- The contract file: the version, and a line for each contract.
abbrev pub contract_file : List ℕ → List OmsScripInfo → List ℕ
contract_file version os = write_columns (version ∷ []) ++ write_lines (table os)

lines-contract_file :
    (version : List ℕ) (os : List OmsScripInfo)
    → All IsPlain version
    → All IsContract os
    → drop 1 (lines (contract_file version os)) ≡ written (table os)
lines-contract_file version os v h =
    ap (drop 1) (lines-write_lines ((version ∷ []) ∷ table os) ((v, tt), table-AreColumns os h))

-- `FileDigester` reads a file with the version and a line for each of the contracts `os` back: a token that
-- had no contract has the first of `os` with that token, and one that had a contract keeps it.
pub file_digester-contract_file :
    (version : List ℕ) (os : List OmsScripInfo) (td : TokenDataStore) (t : ℕ)
    → All IsPlain version
    → All IsContract os
    → find (file_digester (some (contract_file version os)) td).1 t
      ≡ or_else (find td t) (first_with t os)
file_digester-contract_file version os td t v h =
    find-file_digester (contract_file version os) td t
    ∙ ap (λ ls. or_else (find td t) (first_with t (contracts_of ls)))
        (lines-contract_file version os v h)
    ∙ ap (λ cs. or_else (find td t) (first_with t cs)) (contracts-written os h)
