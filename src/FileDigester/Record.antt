-- ===== src/FileDigester/Record.antt =====
-- The contract that `FileDigester` makes of a line, as the columns of the file say.
use real_time_cr.Prelude.{
  ◌==◌, if◌then◌else◌, get_elem?, take, ℕ, ◌-◌, ◌^◌, ◌≤◌, ◌≡◌, refl, sym, ◌∙◌, Option, none, some,
  List, [], ◌∷◌, arith,
}
use real_time_cr.FileDigester.{digest_line, set_column, no_scrip_info}
use real_time_cr.Contract.{OmsScripInfo}
use real_time_cr.FileDigester.Columns.{columns}
use real_time_cr.FileDigester.Reference.{at, run-at, run-part, run-at_two, run-idle}
use real_time_cr.FileDigester.Text.{atoi, same_text}

abbrev pub text_of : Option (List ℕ) → List ℕ
text_of none = []
text_of (some t) = t

-- What stands in column `k`, which is counted from 1; nothing past the last bar.
abbrev pub column : List (List ℕ) → ℕ → List ℕ
column ts k = text_of (get_elem? ts (k - 1))

-- A number that is missing is 0.
abbrev pub number : List (List ℕ) → ℕ → ℕ
number ts k = atoi (column ts k)

abbrev pub strike_of : ℕ → ℕ
strike_of price = if price == 2 ^ 32 - 1 then 0 else price

-- Call and put, and else what it is already.
abbrev pub series_type : List ℕ → ℕ → ℕ
series_type series other =
    if same_text series (b'P' ∷ b'E' ∷ [])
    then 3
    else if same_text series (b'C' ∷ b'E' ∷ [])
    then 2
    else other

-- A future has no series, and the price -1.
abbrev pub price_type : ℕ → ℕ → ℕ
price_type price other = if price == 2 ^ 32 - 1 then 1 else other

unfoldable pub contract_of : List (List ℕ) → OmsScripInfo
contract_of ts = record {
  expiry_date = number ts 7;
  strike_price = strike_of (number ts 8);
  token = number ts 1;
  board_lot_qty = number ts 32;
  min_lot_qty = number ts 31;
  tick_size = number ts 33;
  custom_instrument_type = series_type (take 2 (column ts 9)) (price_type (number ts 8) 0);
  symbol = take 10 (column ts 4);
  series = take 2 (column ts 9);
  symbol_name = take 25 (column ts 54);
  total_traded = 0;
}

-- One column that makes a value of its text.
module _ {A : Type 0} (part : OmsScripInfo → A) (k : ℕ) (value : List ℕ → A) where
  pub step : ℕ → List ℕ → A → A
  step j t a = if j == k then value t else a

  at-value : (o : Option (List ℕ)) (a : A) → value [] ≡ a → at step k o a ≡ value (text_of o)
  unfolding step
  at-value none a h = sym h
  at-value (some t) a h = ground arith

  pub part-column :
      (line : List ℕ)
      → ((j : ℕ) (t : List ℕ) (o : OmsScripInfo) → part (set_column j t o) ≡ step j t (part o))
      → value [] ≡ part no_scrip_info
      → 1 ≤ k
      → k ≤ 68
      → part (digest_line line) ≡ value (column (columns line) k)
  unfolding digest_line step
  part-column line h start low high =
      run-part part step h 68 1 line no_scrip_info
      ∙ run-at step k 68 1 (columns line) (part no_scrip_info) low (omega arith)
          (λ j t b le ne. ground arith)
      ∙ at-value (get_elem? (columns line) (k - 1)) (part no_scrip_info) start

number_of_nothing : atoi [] ≡ 0
unfolding atoi
number_of_nothing = refl

strike_of_nothing : strike_of (atoi []) ≡ 0
unfolding atoi
strike_of_nothing = refl

token-eq : (line : List ℕ) → (digest_line line).token ≡ number (columns line) 1
unfolding step set_column
token-eq line =
    part-column (λ o. o.token) 1 atoi line (λ j t o. ground arith) number_of_nothing (omega arith)
      (omega arith)

symbol-eq : (line : List ℕ) → (digest_line line).symbol ≡ take 10 (column (columns line) 4)
unfolding step set_column
symbol-eq line =
    part-column (λ o. o.symbol) 4 (take 10) line (λ j t o. ground arith) refl (omega arith)
      (omega arith)

expiry_date-eq : (line : List ℕ) → (digest_line line).expiry_date ≡ number (columns line) 7
unfolding step set_column
expiry_date-eq line =
    part-column (λ o. o.expiry_date) 7 atoi line (λ j t o. ground arith) number_of_nothing
      (omega arith) (omega arith)

strike_price-eq :
    (line : List ℕ) → (digest_line line).strike_price ≡ strike_of (number (columns line) 8)
unfolding step set_column
strike_price-eq line =
    part-column (λ o. o.strike_price) 8 (λ t. strike_of (atoi t)) line (λ j t o. ground arith)
      strike_of_nothing (omega arith) (omega arith)

series-eq : (line : List ℕ) → (digest_line line).series ≡ take 2 (column (columns line) 9)
unfolding step set_column
series-eq line =
    part-column (λ o. o.series) 9 (take 2) line (λ j t o. ground arith) refl (omega arith)
      (omega arith)

min_lot_qty-eq : (line : List ℕ) → (digest_line line).min_lot_qty ≡ number (columns line) 31
unfolding step set_column
min_lot_qty-eq line =
    part-column (λ o. o.min_lot_qty) 31 atoi line (λ j t o. ground arith) number_of_nothing
      (omega arith) (omega arith)

board_lot_qty-eq : (line : List ℕ) → (digest_line line).board_lot_qty ≡ number (columns line) 32
unfolding step set_column
board_lot_qty-eq line =
    part-column (λ o. o.board_lot_qty) 32 atoi line (λ j t o. ground arith) number_of_nothing
      (omega arith) (omega arith)

tick_size-eq : (line : List ℕ) → (digest_line line).tick_size ≡ number (columns line) 33
unfolding step set_column
tick_size-eq line =
    part-column (λ o. o.tick_size) 33 atoi line (λ j t o. ground arith) number_of_nothing
      (omega arith) (omega arith)

symbol_name-eq :
    (line : List ℕ) → (digest_line line).symbol_name ≡ take 25 (column (columns line) 54)
unfolding step set_column
symbol_name-eq line =
    part-column (λ o. o.symbol_name) 54 (take 25) line (λ j t o. ground arith) refl (omega arith)
      (omega arith)

total_step : ℕ → List ℕ → ℕ → ℕ
total_step j t a = a

total_traded-eq : (line : List ℕ) → (digest_line line).total_traded ≡ 0
unfolding digest_line set_column total_step
total_traded-eq line =
    run-part (λ o. o.total_traded) total_step (λ j t o. ground arith) 68 1 line no_scrip_info
    ∙ run-idle total_step 68 1 (columns line) 0 (λ j t b le. refl)

-- Two columns make the type.
type_step : ℕ → List ℕ → ℕ → ℕ
type_step j t a =
    if j == 8 then price_type (atoi t) a else if j == 9 then series_type (take 2 t) a else a

type-part :
    (j : ℕ) (t : List ℕ) (o : OmsScripInfo)
    → (set_column j t o).custom_instrument_type ≡ type_step j t o.custom_instrument_type
unfolding set_column type_step
type-part j t o = ground arith

type-at :
    (o p : Option (List ℕ))
    → at type_step 9 p (at type_step 8 o 0)
      ≡ series_type (take 2 (text_of p)) (price_type (atoi (text_of o)) 0)
unfolding type_step atoi same_text
type-at none none = ground arith
type-at none (some t) = ground arith
type-at (some t) none = ground arith
type-at (some t) (some u) = ground arith

type-eq :
    (line : List ℕ)
    → (digest_line line).custom_instrument_type
      ≡ series_type (take 2 (column (columns line) 9)) (price_type (number (columns line) 8) 0)
unfolding digest_line type_step
type-eq line =
    run-part (λ o. o.custom_instrument_type) type_step type-part 68 1 line no_scrip_info
    ∙ run-at_two type_step 8 68 1 (columns line) 0 (omega arith) (omega arith)
        (λ j t b le ne ne2. ground arith)
    ∙ type-at (get_elem? (columns line) 7) (get_elem? (columns line) 8)

-- What `FileDigester` makes of a line is the contract that its columns say.
pub digest_line-eq : (line : List ℕ) → digest_line line ≡ contract_of (columns line)
unfolding contract_of
digest_line-eq line = λ i. record {
  expiry_date = expiry_date-eq line i;
  strike_price = strike_price-eq line i;
  token = token-eq line i;
  board_lot_qty = board_lot_qty-eq line i;
  min_lot_qty = min_lot_qty-eq line i;
  tick_size = tick_size-eq line i;
  custom_instrument_type = type-eq line i;
  symbol = symbol-eq line i;
  series = series-eq line i;
  symbol_name = symbol_name-eq line i;
  total_traded = total_traded-eq line i;
}
