-- ===== src/Split/Middle.antt =====
-- main.cpp, `GetMiddleQty`: where the second leg of the open group begins and ends, and the quantity
-- of the leg traded last before the third one.
use real_time_cr.Prelude.{
  ◌==◌, if◌then◌else◌, end_iterator, Exec, ok, ◌>>=◌, deref, ℕ, ◌+◌, Bool, true, false, not, ◌&&◌,
  [], ◌∷◌,
}
use real_time_cr.Contract.{OmsScripInfo, TokenDataStore, TradeMsgStore, switch, find}
use real_time_cr.Message.{BcastMsg}
use real_time_cr.Words.{add32}

-- The three results and the variables of the loop.
pub record Middle : Type 0 where
  pub qty : ℕ
  pub start_index : ℕ
  pub end_index : ℕ
  pub fut_qty : ℕ
  pub call_qty : ℕ
  pub put_qty : ℕ
  pub last_update_qty : ℕ
  pub count : ℕ
  pub index : ℕ
  pub fut_status : Bool
  pub call_status : Bool
  pub put_status : Bool

abbrev pub no_middle : Middle
no_middle = record {
  qty = 0;
  start_index = 0;
  end_index = 0;
  fut_qty = 0;
  call_qty = 0;
  put_qty = 0;
  last_update_qty = 0;
  count = 0;
  index = 0;
  fut_status = false;
  call_status = false;
  put_status = false;
}

-- Both tests of a case: the second leg's first trade sets the start; the third leg's first trade
-- sets the end and returns.
abbrev pub is_third : Bool → Middle → Bool
is_third status s = s.count == 2 && not status

abbrev pub start : Bool → Middle → ℕ
start status s = if s.count == 1 && not status then s.index else s.start_index

abbrev pub counted : Bool → Middle → ℕ
counted status s = if status then s.count else s.count + 1

abbrev pub stop : Middle → Middle
stop s = record s { qty = s.last_update_qty; end_index = s.index }

abbrev pub middle_fut : BcastMsg → Middle → Middle
middle_fut m s = record s {
  start_index = start s.fut_status s;
  fut_qty = add32 s.fut_qty m.trade_qty;
  last_update_qty = add32 s.fut_qty m.trade_qty;
  count = counted s.fut_status s;
  fut_status = true;
}

abbrev pub middle_call : BcastMsg → Middle → Middle
middle_call m s = record s {
  start_index = start s.call_status s;
  call_qty = add32 s.call_qty m.trade_qty;
  last_update_qty = add32 s.call_qty m.trade_qty;
  count = counted s.call_status s;
  call_status = true;
}

abbrev pub middle_put : BcastMsg → Middle → Middle
middle_put m s = record s {
  start_index = start s.put_status s;
  put_qty = add32 s.put_qty m.trade_qty;
  last_update_qty = add32 s.put_qty m.trade_qty;
  count = counted s.put_status s;
  put_status = true;
}

abbrev pub status_of : OmsScripInfo → Middle → Bool
status_of info s = switch info.custom_instrument_type s.fut_status s.call_status s.put_status true

abbrev pub middle_step : OmsScripInfo → BcastMsg → Middle → Middle
middle_step info m s =
    let t =
      switch info.custom_instrument_type (middle_fut m s) (middle_call m s) (middle_put m s) s in
    record t { index = s.index + 1 }

unfoldable pub middle_loop : TokenDataStore → TradeMsgStore → Middle → Exec Middle
middle_loop td [] s = ok s
middle_loop td (m ∷ ms) s = deref (find td m.token) end_iterator >>= λ info.
    let rest = middle_loop td ms (middle_step info m s) in
    if is_third (status_of info s) s then ok (stop s) else rest

unfoldable pub get_middle_qty : TokenDataStore → TradeMsgStore → Exec Middle
unfolding middle_loop
get_middle_qty td ms = middle_loop td ms no_middle
