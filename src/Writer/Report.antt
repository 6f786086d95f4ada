-- ===== src/Writer/Report.antt =====
-- The records that `WriteDataInFile` queues, against the groups that they come from.
use real_time_cr.Prelude.{
  ◌==◌, if◌then◌else◌, take, null_pointer, ok, deref, bind-eq-ok, ℕ, ◌%◌, ◌^◌, ◌≡◌, refl, sym, ◌∙◌,
  ◌⊎◌, true, ◌||◌, Option, none, some, arith, subst,
}
use real_time_cr.Contract.{
  TokenDataStore, TradeMsgStore, OmsScripInfo, leg_qty, fut, Leg, put, type_of, call,
}
use real_time_cr.Writer.Groups.{
  ConRevTradeDetails, TradeDetails, make_con_rev, handle_group, averages, Carried, queued,
  with_contract, con_rev, total_all, no_details, Averages, average,
}
use real_time_cr.Writer.{div32}
use real_time_cr.ConRev.Sound.{IsBalanced, is_validate_con_rev-IsBalanced}
use real_time_cr.Words.{div32, add32, sub32}
use real_time_cr.ConRev.Rounds.{mark_known}
use real_time_cr.ConRev.{no_sides, Sides, is_con_rev, is_validate_con_rev}
use real_time_cr.Writer.Totals.{
  side_of, last_found, last_seq, last_timestamp, last_strike, last_expiry, total_all-strategy,
  total_all-carried, total_all-terms, last_packet, total_all-scrip, last_future, total_all-value,
  volume_of, leg_value, total_all-volume,
}

module _ (td : TokenDataStore) (stream : ℕ) (group : TradeMsgStore) where
  -- Call - put + strike against the future.
  abbrev pub spread_of : ℕ → ℕ → Averages → ℕ
  spread_of strategy strike a =
      let synthetic = add32 (sub32 a.avg_trade_price3 a.avg_trade_price2) strike in
      if strategy == 1
      then sub32 synthetic a.avg_trade_price1
      else sub32 a.avg_trade_price1 synthetic

  -- A record that reports the group.
  pub record IsReport (r : ConRevTradeDetails) : Type 0 where
    pub balanced : IsBalanced td group
    pub strategy : (r.strategy_indentifier ≡ 1) ⊎ (r.strategy_indentifier ≡ 2)
    pub fut_side : (mark_known td group no_sides).fut_buy_sell ≡ side_of td r.strategy_indentifier
    pub contract : OmsScripInfo
    pub contract_is : last_found td none group ≡ some contract
    pub lots : div32 (leg_qty td 1 group % 2 ^ 32) contract.board_lot_qty ≡ ok r.total_trade_lot
    pub prices : Averages
    pub fut_price :
        average (leg_value td 1 0 group) (leg_qty td 1 group % 2 ^ 32) ≡ ok prices.avg_trade_price1
    pub put_price :
        average (leg_value td 3 0 group) (leg_qty td 3 group % 2 ^ 32) ≡ ok prices.avg_trade_price2
    pub call_price :
        average (leg_value td 2 0 group) (leg_qty td 2 group % 2 ^ 32) ≡ ok prices.avg_trade_price3
    pub spread : r.spread ≡ spread_of r.strategy_indentifier r.strike_price prices
    pub symbol : r.symbol ≡ take 10 contract.symbol
    pub stream_is : r.stream_id ≡ stream
    pub seq_no : r.exchange_sequence_no ≡ last_seq td 0 group
    pub time : r.timestamp ≡ last_timestamp td 0 group
    pub strike : r.strike_price ≡ last_strike td 0 group
    pub expiry : r.expiray_date ≡ last_expiry td 0 group

  -- What `make_con_rev` puts together, taken apart.
  record Made (t : TradeDetails) (r : ConRevTradeDetails) : Type 0 where
    prices : Averages
    averaged : averages t ≡ ok prices
    spread : r.spread ≡ spread_of t.strategy_indentifier t.strike_price prices
    info : OmsScripInfo
    found : t.scrip ≡ some info
    lots : div32 t.traded_volume1 info.board_lot_qty ≡ ok r.total_trade_lot
    symbol : r.symbol ≡ take 10 info.symbol
    strategy : r.strategy_indentifier ≡ t.strategy_indentifier
    stream_is : r.stream_id ≡ stream
    carried :
        (r.exchange_sequence_no ≡ t.carried.last_seq_no)
        × (r.timestamp ≡ t.carried.timestamp)
        × (r.expiray_date ≡ t.carried.expiry_date1)
        × (r.strike_price ≡ t.strike_price)

  make_con_rev-Made :
      (t : TradeDetails) (o : Option ConRevTradeDetails)
      → (t.strategy_indentifier == 1 || t.strategy_indentifier == 2) ≡ true
      → make_con_rev stream t ≡ ok o
      → (r : ConRevTradeDetails) × (o ≡ some r) × Made t r
  unfolding make_con_rev
  make_con_rev-Made t o two h =
      let (a, e1, h1) = bind-eq-ok (averages t) (queued stream t) h in
      let (info, e2, h2) =
        bind-eq-ok (deref t.scrip null_pointer) (with_contract stream t a) (rw two at h1) in
      let (lots, e3, h3) =
        bind-eq-ok (div32 t.traded_volume1 info.board_lot_qty)
          (λ n. ok (some (con_rev stream t a info n))) h2 in
      (
        con_rev stream t a info lots,
        ground arith,
        record {
          prices = a;
          averaged = e1;
          spread = refl;
          info = info;
          found = deref-eq-ok t.scrip e2;
          lots = e3;
          symbol = refl;
          strategy = refl;
          stream_is = refl;
          carried = (refl, refl, refl, refl);
        },
      )
    where
      deref-eq-ok :
          (o : Option OmsScripInfo) {i : OmsScripInfo} → deref o null_pointer ≡ ok i → o ≡ some i
      deref-eq-ok none e = cc
      deref-eq-ok (some j) e = ground arith

  strategy_cases :
      (s : Sides) (n : ℕ)
      → is_con_rev s ≡ true
      → s.fut_buy_sell ≡ side_of td n
      → (n == 1 || n == 2) ≡ true
  strategy_cases s n c e = ground arith

  pub total_all-leg :
      (c : Carried) (g : Leg)
      → volume_of td g (total_all td group (no_details c)) ≡ leg_qty td (type_of g) group % 2 ^ 32
  total_all-leg c fut = omega (arith, total_all-volume td fut group (no_details c) (omega arith))
  total_all-leg c call = omega (arith, total_all-volume td call group (no_details c) (omega arith))
  total_all-leg c put = omega (arith, total_all-volume td put group (no_details c) (omega arith))

  averages-eq-ok :
      (t : TradeDetails) {a : Averages}
      → averages t ≡ ok a
      → (average t.traded_value1 t.traded_volume1 ≡ ok a.avg_trade_price1)
        × (average t.traded_value2 t.traded_volume2 ≡ ok a.avg_trade_price2)
        × (average t.traded_value3 t.traded_volume3 ≡ ok a.avg_trade_price3)
  unfolding averages
  averages-eq-ok t h =
      let (a1, e1, h1) = bind-eq-ok (average t.traded_value1 t.traded_volume1) _ h in
      let (a2, e2, h2) = bind-eq-ok (average t.traded_value2 t.traded_volume2) _ h1 in
      let (a3, e3, h3) = bind-eq-ok (average t.traded_value3 t.traded_volume3) _ h2 in
      (ground arith, ground arith, ground arith)

  IsReport-of :
      (c : Carried) (r : ConRevTradeDetails)
      → let t = total_all td group (no_details c) in
        IsBalanced td group
        → (mark_known td group no_sides).fut_buy_sell ≡ side_of td t.strategy_indentifier
        → (t.strategy_indentifier == 1 || t.strategy_indentifier == 2) ≡ true
        → Made t r
        → IsReport r
  IsReport-of c r balanced side two m =
      let t = total_all td group (no_details c) in
      let (seq, time) = total_all-carried td group (no_details c) in
      let (strike, expiry) = total_all-terms td group (no_details c) in
      let (seq0, time0) =
        last_packet td group c.last_seq_no 0 c.timestamp 0 1 (balanced.complete fut) in
      let volume : t.traded_volume1 ≡ leg_qty td 1 group % 2 ^ 32 = total_all-leg c fut in
      let (fut_is, put_is, call_is) = averages-eq-ok t m.averaged in
      record {
        balanced = balanced;
        strategy = ground (arith, m.strategy);
        fut_side = rw m.strategy side;
        contract = m.info;
        contract_is = sym (total_all-scrip td group (no_details c)) ∙ m.found;
        lots = subst (λ v. div32 v m.info.board_lot_qty ≡ ok r.total_trade_lot) volume m.lots;
        prices = m.prices;
        fut_price = rw (← volume, ← total_all-value td fut group (no_details c)) fut_is;
        put_price =
            rw (← total_all-leg c put, ← total_all-value td put group (no_details c)) put_is;
        call_price =
            rw (← total_all-leg c call, ← total_all-value td call group (no_details c)) call_is;
        spread = rw (m.strategy, m.carried.3) m.spread;
        symbol = m.symbol;
        stream_is = m.stream_is;
        seq_no = m.carried.0 ∙ seq ∙ seq0;
        time = m.carried.1 ∙ time ∙ time0;
        strike = m.carried.3 ∙ strike;
        expiry =
            m.carried.2 ∙ expiry ∙ last_future td group c.expiry_date1 0 (balanced.complete fut);
      }

  pub handle_group-IsReport :
      (c c' : Carried) (o : Option ConRevTradeDetails)
      → is_validate_con_rev td group ≡ ok true
      → handle_group td stream group c ≡ ok (o, c')
      → (r : ConRevTradeDetails) × (o ≡ some r) × IsReport r
  unfolding handle_group
  handle_group-IsReport c c' o v h =
      let t = total_all td group (no_details c) in
      let (o', made, same) =
        bind-eq-ok (make_con_rev stream t) (λ r. ok (r, t.carried)) (rw v at h) in
      let balanced = is_validate_con_rev-IsBalanced td group v in
      let side = total_all-strategy td group (no_details c) no_sides refl in
      let two =
        strategy_cases (mark_known td group no_sides) t.strategy_indentifier balanced.opposed
          side in
      let (r, is_r, m) = make_con_rev-Made t o' two made in
      (r, ground arith, IsReport-of c r balanced side two m)
