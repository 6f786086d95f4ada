-- ===== src/FileDigester/Cells.antt =====
-- The line of a contract in the contract file, cell by cell.
use real_time_cr.Prelude.{
  ◌==◌, if◌then◌else◌, length, All, ℕ, zero, suc, ◌^◌, ◌≤◌, ◌<◌, ◌≡◌, Bool, true, false, List, [],
  ◌∷◌, arith,
}
use real_time_cr.FileDigester.Text.{same_text}
use real_time_cr.Contract.{OmsScripInfo}
use real_time_cr.FileDigester.Written.{IsPlain, AreColumns}
use real_time_cr.FileDigester.Decimal.{decimal, show-AllDigits, AllDigits}

abbrev series_ce : List ℕ
series_ce = b'C' ∷ b'E' ∷ []

abbrev series_pe : List ℕ
series_pe = b'P' ∷ b'E' ∷ []

-- The instrument type goes with the series, and a future has no strike price.
pub data HasType : ℕ → ℕ → List ℕ → Type 0 where
  is_future :
      {s : List ℕ} → same_text s series_ce ≡ false → same_text s series_pe ≡ false → HasType 1 0 s
  is_call : {price : ℕ} → HasType 2 price series_ce
  is_put : {price : ℕ} → HasType 3 price series_pe
  is_other :
      {price : ℕ} {s : List ℕ}
      → same_text s series_ce ≡ false
      → same_text s series_pe ≡ false
      → HasType 0 price s

-- A text that fits a field of `n` bytes, and a column.
abbrev pub Fits : ℕ → List ℕ → Type 0
Fits n t = (length t ≤ n) × All IsPlain t

-- What a contract of the exchange's file is.
pub record IsContract (o : OmsScripInfo) : Type 0 where
  pub token : o.token < 2 ^ 31
  pub expiry_date : o.expiry_date < 2 ^ 31
  pub strike_price : o.strike_price < 2 ^ 31
  pub board_lot_qty : o.board_lot_qty < 2 ^ 31
  pub min_lot_qty : o.min_lot_qty < 2 ^ 31
  pub tick_size : o.tick_size < 2 ^ 31
  pub symbol : Fits 10 o.symbol
  pub series : Fits 2 o.series
  pub symbol_name : Fits 25 o.symbol_name
  pub has_type : HasType o.custom_instrument_type o.strike_price o.series
  pub total_traded : o.total_traded ≡ 0

-- The price of a future is written as -1.
unfoldable pub price_text : ℕ → ℕ → List ℕ
price_text type price = if type == 1 then b'-' ∷ b'1' ∷ [] else decimal price

-- What stands in column `k`; the columns that the program does not read are left empty.
unfoldable pub cell : OmsScripInfo → ℕ → List ℕ
cell o k =
    if k == 1
    then decimal o.token
    else if k == 4
    then o.symbol
    else if k == 7
    then decimal o.expiry_date
    else if k == 8
    then price_text o.custom_instrument_type o.strike_price
    else if k == 9
    then o.series
    else if k == 31
    then decimal o.min_lot_qty
    else if k == 32
    then decimal o.board_lot_qty
    else if k == 33
    then decimal o.tick_size
    else if k == 54
    then o.symbol_name
    else []

abbrev pub cells : OmsScripInfo → ℕ → ℕ → List (List ℕ)
cells o k zero = []
cells o k (suc n) = cell o k ∷ cells o (suc k) n

-- The line of a contract has 68 columns.
abbrev pub cells_of : OmsScripInfo → List (List ℕ)
cells_of o = cells o 1 68

IsPlain-digit : (c : ℕ) → (b'0' ≤ c) × (c ≤ b'9') → IsPlain c
IsPlain-digit c (low, high) = (λ e. omega arith, λ e. omega arith, λ e. omega arith)

IsPlain-minus : IsPlain b'-'
IsPlain-minus = (λ e. omega arith, λ e. omega arith, λ e. omega arith)

digits-IsPlain : (s : List ℕ) → AllDigits s → All IsPlain s
digits-IsPlain [] h = tt
digits-IsPlain (c ∷ s) (p, h) = (IsPlain-digit c p, digits-IsPlain s h)

decimal-IsPlain : (n : ℕ) → All IsPlain (decimal n)
decimal-IsPlain n = digits-IsPlain (decimal n) (show-AllDigits 10 n [] tt)

minus_one-IsPlain : All IsPlain (b'-' ∷ b'1' ∷ [])
minus_one-IsPlain = (IsPlain-minus, (IsPlain-digit b'1' (omega arith, omega arith), tt))

if-IsPlain :
    (b : Bool) (s t : List ℕ) → All IsPlain s → All IsPlain t → All IsPlain (if b then s else t)
if-IsPlain true s t p q = p
if-IsPlain false s t p q = q

cell-IsPlain : (o : OmsScripInfo) (k : ℕ) → IsContract o → All IsPlain (cell o k)
unfolding cell price_text
cell-IsPlain o k h =
    let price =
      if-IsPlain (o.custom_instrument_type == 1) _ _ minus_one-IsPlain
        (decimal-IsPlain o.strike_price) in
    if-IsPlain (k == 1) _ _ (decimal-IsPlain o.token) (
      if-IsPlain (k == 4) _ _ h.symbol.1 (
        if-IsPlain (k == 7) _ _ (decimal-IsPlain o.expiry_date) (
          if-IsPlain (k == 8) _ _ price (
            if-IsPlain (k == 9) _ _ h.series.1 (
              if-IsPlain (k == 31) _ _ (decimal-IsPlain o.min_lot_qty) (
                if-IsPlain (k == 32) _ _ (decimal-IsPlain o.board_lot_qty) (
                  if-IsPlain (k == 33) _ _ (decimal-IsPlain o.tick_size)
                    (if-IsPlain (k == 54) _ _ h.symbol_name.1 tt))))))))

pub cells-AreColumns : (o : OmsScripInfo) (k n : ℕ) → IsContract o → AreColumns (cells o k n)
cells-AreColumns o k zero h = tt
cells-AreColumns o k (suc n) h = (cell-IsPlain o k h, cells-AreColumns o (suc k) n h)
