-- ===== src/ConRev.antt =====
-- main.cpp, `IsValidateConRev`: whether a group of trades makes a conversion or a reversal.
pub mod Rounds
pub mod Sound
pub mod Complete
pub mod Safe
use real_time_cr.Prelude.{
  ◌==◌, ◌!=◌, if◌then◌else◌, null_pointer, Exec, ok, ◌>>=◌, deref, ℕ, Bool, true, false, not, ◌&&◌,
  ◌||◌, Option, none, some, [], ◌∷◌,
}
use real_time_cr.Words.{add32}
use real_time_cr.Message.{BcastMsg, buy_indicator_char, sell_indicator_char}
use real_time_cr.Contract.{
  OmsScripInfo, TokenDataStore, TradeMsgStore, find, switch, no_buy, no_sell, is_unsided,
}

-- `lcFutBuySell`, `lcPutBuySell` and `lcCallBuySell`; 0 is '\0'.
pub record Sides : Type 0 where
  pub fut_buy_sell : ℕ
  pub put_buy_sell : ℕ
  pub call_buy_sell : ℕ

abbrev pub no_sides : Sides
no_sides = record { fut_buy_sell = 0; put_buy_sell = 0; call_buy_sell = 0 }

-- The two `if`s on the order ids: a trade without buy order is 'B', without sell order 'S'.
abbrev pub side : BcastMsg → ℕ → ℕ
side m old = if no_sell m then sell_indicator_char else if no_buy m then buy_indicator_char else old

abbrev pub mark : OmsScripInfo → BcastMsg → Sides → Sides
mark info m s =
    switch info.custom_instrument_type (record s { fut_buy_sell = side m s.fut_buy_sell })
      (record s { call_buy_sell = side m s.call_buy_sell })
      (record s { put_buy_sell = side m s.put_buy_sell }) s

-- Future and put on one side, the call on the other.
abbrev pub is_con_rev : Sides → Bool
is_con_rev s =
    (s.fut_buy_sell == buy_indicator_char
      && s.put_buy_sell == buy_indicator_char
      && s.call_buy_sell == sell_indicator_char)
    || (s.fut_buy_sell == sell_indicator_char
        && s.put_buy_sell == sell_indicator_char
        && s.call_buy_sell == buy_indicator_char)

-- The variables of the loop.
pub record Scan : Type 0 where
  pub fut_qty : ℕ
  pub call_qty : ℕ
  pub put_qty : ℕ
  pub fut_token : Bool
  pub put_token : Bool
  pub call_token : Bool
  pub strike_price1 : ℕ
  pub strike_price2 : ℕ
  pub expiry_date : ℕ
  pub sides : Sides

abbrev pub no_scan : Scan
no_scan = record {
  fut_qty = 0;
  call_qty = 0;
  put_qty = 0;
  fut_token = false;
  put_token = false;
  call_token = false;
  strike_price1 = 0;
  strike_price2 = 0;
  expiry_date = 0;
  sides = no_sides;
}

-- One round, for a trade whose contract is known; `none` is `return false`.
pub scan_fut : OmsScripInfo → BcastMsg → Scan → Option Scan
scan_fut info m s =
    if s.fut_token && s.expiry_date != info.expiry_date
    then none
    else some (record s {
      fut_token = true;
      expiry_date = info.expiry_date;
      sides = mark info m s.sides;
      fut_qty = add32 s.fut_qty m.trade_qty;
    })

pub scan_call : OmsScripInfo → BcastMsg → Scan → Option Scan
scan_call info m s =
    if s.call_token && (s.expiry_date != info.expiry_date || s.strike_price1 != info.strike_price)
    then none
    else some (record s {
      call_token = true;
      strike_price1 = info.strike_price;
      expiry_date = info.expiry_date;
      sides = mark info m s.sides;
      call_qty = add32 s.call_qty m.trade_qty;
    })

pub scan_put : OmsScripInfo → BcastMsg → Scan → Option Scan
scan_put info m s =
    if s.put_token && (s.expiry_date != info.expiry_date || s.strike_price2 != info.strike_price)
    then none
    else some (record s {
      put_token = true;
      strike_price2 = info.strike_price;
      expiry_date = info.expiry_date;
      sides = mark info m s.sides;
      put_qty = add32 s.put_qty m.trade_qty;
    })

pub scan_leg : OmsScripInfo → BcastMsg → Scan → Option Scan
unfolding scan_fut scan_call scan_put
scan_leg info m s =
    switch info.custom_instrument_type (scan_fut info m s) (scan_call info m s) (scan_put info m s)
      (some s)

-- A round: trades with both ids or with neither end the loop; an unknown token is a null pointer.
pub scan_one : TokenDataStore → BcastMsg → Scan → Exec (Option Scan)
scan_one td m s =
    if is_unsided m
    then ok none
    else (do info ← deref (find td m.token) null_pointer; ok (scan_leg info m s))

pub scan_all : TokenDataStore → TradeMsgStore → Scan → Exec (Option Scan)
scan_all td [] s = ok (some s)
scan_all td (m ∷ ms) s =
    scan_one td m s >>= λ r. elim r [ none ↦ ok none | some s' ↦ scan_all td ms s' ]

-- The tests behind the loop.
pub verdict : Option Scan → Bool
verdict none = false
verdict (some s) =
    if s.put_qty != s.call_qty || s.call_qty != s.fut_qty
    then false
    else if not s.put_token || not s.call_token || not s.fut_token
    then false
    else is_con_rev s.sides

unfoldable pub is_validate_con_rev : TokenDataStore → TradeMsgStore → Exec Bool
unfolding scan_one scan_leg scan_all verdict
is_validate_con_rev td ms = do r ← scan_all td ms no_scan; ok (verdict r)
