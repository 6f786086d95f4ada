-- ===== src/FileDigester.antt =====
-- main.cpp, `FileDigester`: reads the contract file of the exchange into the map of contracts. What the
-- file holds is given as bytes; a read error, and what is printed, are not modelled.
pub mod Text
pub mod Columns
pub mod Reference
pub mod Record
pub mod Store
pub mod Typed
pub mod Decimal
pub mod Written
pub mod Cells
pub mod RoundTrip
use real_time_cr.Prelude.{
  ◌==◌, if◌then◌else◌, take, drop, ℕ, zero, suc, ◌-◌, ◌^◌, Option, none, some, List, [], ◌∷◌, ◌++◌,
}
use real_time_cr.Contract.{TokenDataStore, OmsScripInfo, find}
use real_time_cr.FileDigester.Text.{c_string, atoi, lines, same_text, find_bar}

-- The columns of the file that are read (defines_conrevtrades.h).
abbrev pub contract_token : ℕ
contract_token = 1

abbrev pub contract_symbol : ℕ
contract_symbol = 4

abbrev pub contract_expiry_date : ℕ
contract_expiry_date = 7

abbrev pub contract_strike_price : ℕ
contract_strike_price = 8

abbrev pub contract_ca_level : ℕ
contract_ca_level = 9

abbrev pub contract_min_lot_qty : ℕ
contract_min_lot_qty = 31

abbrev pub contract_broad_lot_qty : ℕ
contract_broad_lot_qty = 32

abbrev pub contract_tick_size : ℕ
contract_tick_size = 33

abbrev pub contract_name : ℕ
contract_name = 54

abbrev pub scrip_symbol_len : ℕ
scrip_symbol_len = 10

-- `new OMSScripInfo()`, set to zeros.
abbrev pub no_scrip_info : OmsScripInfo
no_scrip_info = record {
  expiry_date = 0;
  strike_price = 0;
  token = 0;
  board_lot_qty = 0;
  min_lot_qty = 0;
  tick_size = 0;
  custom_instrument_type = 0;
  symbol = [];
  series = [];
  symbol_name = [];
  total_traded = 0;
}

-- A strike price of -1 makes a future; the test is on the price as `int32_t`.
abbrev pub set_strike_price : ℕ → OmsScripInfo → OmsScripInfo
set_strike_price price o =
    if price == 2 ^ 32 - 1
    then record o { strike_price = 0; custom_instrument_type = 1 }
    else record o { strike_price = price }

abbrev pub set_series : List ℕ → OmsScripInfo → OmsScripInfo
set_series series o =
    let o1 = record o { series = series } in
    let o2 =
      if same_text series (b'C' ∷ b'E' ∷ [])
      then record o1 { custom_instrument_type = 2 }
      else o1 in
    if same_text series (b'P' ∷ b'E' ∷ []) then record o2 { custom_instrument_type = 3 } else o2

-- `switch(i)`.
unfoldable pub set_column : ℕ → List ℕ → OmsScripInfo → OmsScripInfo
set_column i text o =
    if i == contract_token
    then record o { token = atoi text }
    else if i == contract_symbol
    then record o { symbol = take scrip_symbol_len text }
    else if i == contract_expiry_date
    then record o { expiry_date = atoi text }
    else if i == contract_strike_price
    then set_strike_price (atoi text) o
    else if i == contract_ca_level
    then set_series (take 2 text) o
    else if i == contract_min_lot_qty
    then record o { min_lot_qty = atoi text }
    else if i == contract_broad_lot_qty
    then record o { board_lot_qty = atoi text }
    else if i == contract_tick_size
    then record o { tick_size = atoi text }
    else if i == contract_name
    then record o { symbol_name = take 25 text }
    else o

-- `while(i <= 68)`: `rounds` of them are left, and `rest` is the line from `startPoint` on.
unfoldable pub digest_columns : ℕ → ℕ → List ℕ → OmsScripInfo → OmsScripInfo
digest_columns zero i rest o = o
digest_columns (suc rounds) i rest o = elim (find_bar rest) [
  | none ↦ digest_columns rounds (suc i) rest o
  | some (text, behind) ↦ digest_columns rounds (suc i) behind (set_column i text o)
]

unfoldable pub digest_line : List ℕ → OmsScripInfo
digest_line line = digest_columns 68 1 line no_scrip_info

-- `cTokenData.insert`: a token that is there already keeps its contract.
unfoldable pub insert_contract : TokenDataStore → OmsScripInfo → TokenDataStore
insert_contract td info = elim (find td info.token) [
  | none ↦ td ++ ((info.token, info) ∷ [])
  | some _ ↦ td
]

-- The loop over the lines; `string strLine(pLine)` ends at the first zero byte.
unfoldable pub digest_lines : List (List ℕ) → TokenDataStore → TokenDataStore
digest_lines [] td = td
digest_lines (l ∷ ls) td = digest_lines ls (insert_contract td (digest_line (c_string l)))

-- The file, if it can be opened; its first line is the version. The result is 0 or 1.
unfoldable pub file_digester : Option (List ℕ) → TokenDataStore → ℕ × TokenDataStore
file_digester none td = (0, td)
file_digester (some bytes) td = (1, digest_lines (drop 1 (lines bytes)) td)
