-- ===== src/FileDigester/Typed.antt =====
-- The contracts of the file fit the types of `OMSScripInfo`.
use real_time_cr.Prelude.{
  Option-cases, length, take, drop, All, length-take, All-append, ℕ, ◌-◌, ◌^◌, ◌≤◌, ◌<◌, ◌≡◌, refl,
  sym, inl, inr, Option, none, some, List, [], ◌∷◌, arith, subst,
}
use real_time_cr.FileDigester.Record.{
  contract_of, digest_line-eq, number, column, strike_of, price_type, series_type,
}
use real_time_cr.FileDigester.Text.{atoi, lines, c_string}
use real_time_cr.FileDigester.{
  insert_contract, file_digester, digest_lines, digest_line, lines, c_string,
}
use real_time_cr.Contract.{OmsScripInfo, TokenDataStore, find}
use real_time_cr.FileDigester.Columns.{columns}

-- Numbers of 32 bits, texts that fit their arrays, an instrument type that the program knows, and no -1
-- left as a strike price.
pub record IsTyped (o : OmsScripInfo) : Type 0 where
  pub expiry_date : o.expiry_date < 2 ^ 32
  pub strike_price : o.strike_price < 2 ^ 32 - 1
  pub token : o.token < 2 ^ 32
  pub board_lot_qty : o.board_lot_qty < 2 ^ 32
  pub min_lot_qty : o.min_lot_qty < 2 ^ 32
  pub tick_size : o.tick_size < 2 ^ 32
  pub custom_instrument_type : o.custom_instrument_type ≤ 3
  pub symbol : length o.symbol ≤ 10
  pub series : length o.series ≤ 2
  pub symbol_name : length o.symbol_name ≤ 25
  pub total_traded : o.total_traded ≡ 0

atoi-lt : (s : List ℕ) → atoi s < 2 ^ 32
unfolding atoi
atoi-lt s = omega arith

strike_of-lt : (n : ℕ) → n < 2 ^ 32 → strike_of n < 2 ^ 32 - 1
strike_of-lt n lt = ground arith

type-le : (price : ℕ) (series : List ℕ) → series_type series (price_type price 0) ≤ 3
type-le price series = ground arith

contract_of-IsTyped : (ts : List (List ℕ)) → IsTyped (contract_of ts)
unfolding contract_of
contract_of-IsTyped ts = record {
  expiry_date = atoi-lt (column ts 7);
  strike_price = strike_of-lt (number ts 8) (atoi-lt (column ts 8));
  token = atoi-lt (column ts 1);
  board_lot_qty = atoi-lt (column ts 32);
  min_lot_qty = atoi-lt (column ts 31);
  tick_size = atoi-lt (column ts 33);
  custom_instrument_type = type-le (number ts 8) (take 2 (column ts 9));
  symbol = omega (arith, length-take 10 (column ts 4));
  series = omega (arith, length-take 2 (column ts 9));
  symbol_name = omega (arith, length-take 25 (column ts 54));
  total_traded = refl;
}

-- Each contract stands under its token, and fits.
abbrev pub AreTyped : TokenDataStore → Type 0
AreTyped = All (λ e. (e.0 ≡ e.1.token) × IsTyped e.1)

insert_contract-AreTyped :
    (td : TokenDataStore) (o : OmsScripInfo)
    → AreTyped td
    → IsTyped o
    → AreTyped (insert_contract td o)
unfolding insert_contract
insert_contract-AreTyped td o h p = elim (Option-cases (find td o.token)) [
  | inl e ↦ rw (insert_contract, e) (All-append _ td ((o.token, o) ∷ []) h ((refl, p), tt))
  | inr (old, e) ↦ rw (insert_contract, e) h
]

digest_lines-AreTyped :
    (ls : List (List ℕ)) (td : TokenDataStore) → AreTyped td → AreTyped (digest_lines ls td)
unfolding digest_lines
digest_lines-AreTyped [] td h = h
digest_lines-AreTyped (l ∷ ls) td h =
    let fits : IsTyped (digest_line (c_string l)) =
      subst IsTyped (sym (digest_line-eq (c_string l)))
        (contract_of-IsTyped (columns (c_string l))) in
    digest_lines-AreTyped ls _ (insert_contract-AreTyped td (digest_line (c_string l)) h fits)

-- Whatever bytes the file holds, each contract that `FileDigester` adds stands under its token and fits the types of
-- its fields: numbers of 32 bits, texts no longer than their arrays, an instrument type from 0 to 3, a strike price
-- that is not -1, no lots counted.
pub file_digester-AreTyped :
    (file : Option (List ℕ)) (td : TokenDataStore)
    → AreTyped td
    → AreTyped (file_digester file td).1
unfolding file_digester
file_digester-AreTyped none td h = h
file_digester-AreTyped (some bytes) td h = digest_lines-AreTyped (drop 1 (lines bytes)) td h
