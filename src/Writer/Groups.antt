-- ===== src/Writer/Groups.antt =====
-- main.cpp, the loop of `WriteDataInFile` over the groups: the totals of a group, and the record that is
-- queued for it. The lines printed on the console are not modelled.
use real_time_cr.Prelude.{
  ◌==◌, if◌then◌else◌, take, null_pointer, Exec, ok, ◌>>=◌, deref, ℕ, ◌||◌, Option, none, some,
  List, [], ◌∷◌,
}
use real_time_cr.Contract.{
  OmsScripInfo, TokenDataStore, find, TradeMsgStore, TradeVectorStore, no_sell, no_buy, switch,
}
use real_time_cr.Message.{BcastMsg}
use real_time_cr.Words.{add32, div64, widen, add64, sub32, mul64, narrow, div32}
use real_time_cr.ConRev.{is_validate_con_rev}

-- `tagConRevTradeDetails`, without its bit layout. The symbol is a C string of up to 10 bytes.
pub record ConRevTradeDetails : Type 0 where
  pub timestamp : ℕ
  pub total_trade_lot : ℕ
  pub expiray_date : ℕ
  pub spread : ℕ
  pub strike_price : ℕ
  pub exchange_sequence_no : ℕ
  pub stream_id : ℕ
  pub strategy_indentifier : ℕ
  pub symbol : List ℕ

-- The variables that are declared above the loop over the groups, and not set back in it.
pub record Carried : Type 0 where
  pub last_seq_no : ℕ
  pub timestamp : ℕ
  pub expiry_date1 : ℕ

abbrev pub no_carried : Carried
no_carried = record { last_seq_no = 0; timestamp = 0; expiry_date1 = 0 }

-- `tagTradeDetails` as far as the loop over a group fills it, with the contract pointer.
pub record TradeDetails : Type 0 where
  pub carried : Carried
  pub scrip : Option OmsScripInfo
  pub strategy_indentifier : ℕ
  pub strike_price : ℕ
  pub traded_volume1 : ℕ
  pub traded_volume2 : ℕ
  pub traded_volume3 : ℕ
  pub traded_value1 : ℕ
  pub traded_value2 : ℕ
  pub traded_value3 : ℕ

abbrev pub no_details : Carried → TradeDetails
no_details c = record {
  carried = c;
  scrip = none;
  strategy_indentifier = 0;
  strike_price = 0;
  traded_volume1 = 0;
  traded_volume2 = 0;
  traded_volume3 = 0;
  traded_value1 = 0;
  traded_value2 = 0;
  traded_value3 = 0;
}

-- 1 for a future without buy order, 2 for one without sell order.
abbrev pub strategy : BcastMsg → ℕ → ℕ
strategy m old = if no_sell m then 2 else if no_buy m then 1 else old

-- `(int64_t)nTradeQty * price`, added to an `int64_t`.
abbrev pub add_value : ℕ → BcastMsg → ℕ → ℕ
add_value value m price = add64 value (mul64 (widen m.trade_qty) (widen price))

abbrev pub total_fut : OmsScripInfo → BcastMsg → TradeDetails → TradeDetails
total_fut info m t = record t {
  carried = record (t.carried) { expiry_date1 = info.expiry_date };
  strategy_indentifier = strategy m t.strategy_indentifier;
  traded_volume1 = add32 t.traded_volume1 m.trade_qty;
  traded_value1 = add_value t.traded_value1 m m.trade_price;
}

abbrev pub total_call : OmsScripInfo → BcastMsg → TradeDetails → TradeDetails
total_call info m t = record t {
  strike_price = info.strike_price;
  traded_volume3 = add32 t.traded_volume3 m.trade_qty;
  traded_value3 = add_value t.traded_value3 m (add32 m.trade_price info.strike_price);
}

abbrev pub total_put : OmsScripInfo → BcastMsg → TradeDetails → TradeDetails
total_put info m t = record t {
  strike_price = info.strike_price;
  traded_volume2 = add32 t.traded_volume2 m.trade_qty;
  traded_value2 = add_value t.traded_value2 m (add32 m.trade_price info.strike_price);
}

-- One round of the loop over a group; an unknown token leaves the pointer as it was.
abbrev pub stamp : BcastMsg → TradeDetails → TradeDetails
stamp m t = record t {
  carried = record (t.carried) { last_seq_no = m.seq_no; timestamp = m.timestamp };
}

unfoldable pub total_one : TokenDataStore → BcastMsg → TradeDetails → TradeDetails
total_one td m t = elim (find td m.token) [
  | none ↦ stamp m t
  | some info ↦
      let s = record (stamp m t) { scrip = some info } in
      switch info.custom_instrument_type (total_fut info m s) (total_call info m s)
        (total_put info m s) s
]

unfoldable pub total_all : TokenDataStore → TradeMsgStore → TradeDetails → TradeDetails
unfolding total_one
total_all td [] t = t
total_all td (m ∷ ms) t = total_all td ms (total_one td m t)

-- The average prices of the future, the put and the call.
pub record Averages : Type 0 where
  pub avg_trade_price1 : ℕ
  pub avg_trade_price2 : ℕ
  pub avg_trade_price3 : ℕ

-- `int32_t` from an `int64_t` over an `int32_t`.
unfoldable pub average : ℕ → ℕ → Exec ℕ
average value volume = div64 value (widen volume) >>= λ q. ok (narrow q)

unfoldable pub averages : TradeDetails → Exec Averages
unfolding average
averages t = do
  a1 ← average t.traded_value1 t.traded_volume1
  a2 ← average t.traded_value2 t.traded_volume2
  a3 ← average t.traded_value3 t.traded_volume3
  ok (record { avg_trade_price1 = a1; avg_trade_price2 = a2; avg_trade_price3 = a3 })

-- Call - put + strike, the price of the synthetic future.
abbrev pub synthetic : Averages → TradeDetails → ℕ
synthetic a t = add32 (sub32 a.avg_trade_price3 a.avg_trade_price2) t.strike_price

abbrev pub con_rev : ℕ → TradeDetails → Averages → OmsScripInfo → ℕ → ConRevTradeDetails
con_rev stream t a info lots = record {
  timestamp = t.carried.timestamp;
  total_trade_lot = lots;
  expiray_date = t.carried.expiry_date1;
  spread =
      if t.strategy_indentifier == 1
      then sub32 (synthetic a t) a.avg_trade_price1
      else sub32 a.avg_trade_price1 (synthetic a t);
  strike_price = t.strike_price;
  exchange_sequence_no = t.carried.last_seq_no;
  stream_id = stream;
  strategy_indentifier = t.strategy_indentifier;
  symbol = take 10 info.symbol;
}

abbrev pub with_contract :
    ℕ → TradeDetails → Averages → OmsScripInfo → Exec (Option ConRevTradeDetails)
with_contract stream t a info = do
  lots ← div32 t.traded_volume1 info.board_lot_qty
  ok (some (con_rev stream t a info lots))

-- The record that is queued: none unless the strategy is 1 or 2.
abbrev pub queued : ℕ → TradeDetails → Averages → Exec (Option ConRevTradeDetails)
queued stream t a =
    if t.strategy_indentifier == 1 || t.strategy_indentifier == 2
    then (deref t.scrip null_pointer >>= with_contract stream t a)
    else ok none

unfoldable pub make_con_rev : ℕ → TradeDetails → Exec (Option ConRevTradeDetails)
unfolding averages
make_con_rev stream t = averages t >>= queued stream t

-- The body of the loop over the groups.
unfoldable pub handle_group :
    TokenDataStore → ℕ → TradeMsgStore → Carried → Exec (Option ConRevTradeDetails × Carried)
unfolding total_all make_con_rev
handle_group td stream group c = do
  valid ← is_validate_con_rev td group
  if valid
      then (do
        let t = total_all td group (no_details c)
        r ← make_con_rev stream t
        ok (r, t.carried))
      else ok (none, c)

-- What the loop queues, in order.
abbrev pub cons_some {ℓ} : {A : Type ℓ} → Option A → List A → List A
cons_some none xs = xs
cons_some (some x) xs = x ∷ xs

unfoldable pub handle_groups :
    TokenDataStore → ℕ → TradeVectorStore → Carried → Exec (List ConRevTradeDetails)
unfolding handle_group
handle_groups td stream [] c = ok []
handle_groups td stream (g ∷ gs) c = do
  (r, c') ← handle_group td stream g c
  rest ← handle_groups td stream gs c'
  ok (cons_some r rest)
