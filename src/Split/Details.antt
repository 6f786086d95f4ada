-- ===== src/Split/Details.antt =====
-- main.cpp, `ResetExtraDetails` and `GetExtraDetails`: what `SplitTrade` knows of its open group.
use real_time_cr.Prelude.{end_iterator, Exec, ok, ◌>>=◌, deref, ℕ, Bool, true, false, [], ◌∷◌}
use real_time_cr.Contract.{
  OmsScripInfo, TokenDataStore, TokenStore, TradeMsgStore, switch, insert, find,
}
use real_time_cr.Message.{BcastMsg}
use real_time_cr.Words.{add32}

-- The variables that the two functions take by reference.
pub record ExtraDetails : Type 0 where
  pub token_store : TokenStore
  pub fut_qty : ℕ
  pub call_qty : ℕ
  pub put_qty : ℕ
  pub strike_price : ℕ
  pub fut_token : Bool
  pub put_token : Bool
  pub call_token : Bool
  pub last_expiry_date : ℕ
  pub last_custom_instrument_type : ℕ

abbrev pub reset_extra_details : ExtraDetails
reset_extra_details = record {
  token_store = [];
  fut_qty = 0;
  call_qty = 0;
  put_qty = 0;
  strike_price = 0;
  fut_token = false;
  put_token = false;
  call_token = false;
  last_expiry_date = 0;
  last_custom_instrument_type = 0;
}

-- The assignments of the three cases, which `SplitTrade` repeats for the trade that it adds.
abbrev pub add_fut : OmsScripInfo → BcastMsg → ExtraDetails → ExtraDetails
add_fut info m d = record d {
  fut_token = true;
  last_expiry_date = info.expiry_date;
  last_custom_instrument_type = info.custom_instrument_type;
  fut_qty = add32 d.fut_qty m.trade_qty;
}

abbrev pub add_call : OmsScripInfo → BcastMsg → ExtraDetails → ExtraDetails
add_call info m d = record d {
  call_token = true;
  last_expiry_date = info.expiry_date;
  strike_price = info.strike_price;
  last_custom_instrument_type = info.custom_instrument_type;
  call_qty = add32 d.call_qty m.trade_qty;
}

abbrev pub add_put : OmsScripInfo → BcastMsg → ExtraDetails → ExtraDetails
add_put info m d = record d {
  put_token = true;
  last_expiry_date = info.expiry_date;
  strike_price = info.strike_price;
  last_custom_instrument_type = info.custom_instrument_type;
  put_qty = add32 d.put_qty m.trade_qty;
}

abbrev pub add_details : OmsScripInfo → BcastMsg → ExtraDetails → ExtraDetails
add_details info m d =
    switch info.custom_instrument_type (add_fut info m d) (add_call info m d) (add_put info m d) d

abbrev pub see : BcastMsg → ExtraDetails → ExtraDetails
see m d = record d { token_store = insert m.token d.token_store }

-- An unknown token is read through the end iterator of the map.
unfoldable pub get_extra_details : TokenDataStore → TradeMsgStore → ExtraDetails → Exec ExtraDetails
get_extra_details td [] d = ok d
get_extra_details td (m ∷ ms) d = do
  info ← deref (find td m.token) end_iterator
  get_extra_details td ms (add_details info m (see m d))
