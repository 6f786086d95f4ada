-- ===== src/Writer/Detection.antt =====
-- An order after the three trades of a conversion or reversal.
use real_time_cr.Prelude.{
  ◌==◌, ◌||◌, Bool-cases, length, All, ok, ℕ, ◌%◌, ◌/◌, ◌^◌, ◌<◌, ◌≡◌, ◌≢◌, refl, sym, ap, ◌∙◌, inl,
  inr, true, Option, none, some, [], ◌∷◌, arith, subst,
}
use real_time_cr.Contract.{
  TokenDataStore, TradeMsgStore, OmsScripInfo, Leg, fut, call, put, type_of, has_leg, leg_qty, find,
  IsKnown,
}
use real_time_cr.Message.{BcastMsg}
use real_time_cr.Words.{div64-positive, div32-positive}
use real_time_cr.ConRev.{is_con_rev, no_sides, is_validate_con_rev}
use real_time_cr.ConRev.Rounds.{mark_known}
use real_time_cr.ConRev.Complete.{Agrees, is_validate_con_rev_complete}
use real_time_cr.ConRev.Sound.{is_validate_con_rev-IsBalanced}
use real_time_cr.ShmQueue.{SpscQueue, enqueue}
use real_time_cr.Split.{split_trade}
use real_time_cr.Split.Erase.{refresh}
use real_time_cr.Validate.{validate_trade_msg_records}
use real_time_cr.Validate.Complete.{
  has_three_tokens, length-tokens_of, validate_trade_msg_records_complete,
}
use real_time_cr.Writer.{on_order, Stores, enqueue_all}
use real_time_cr.Writer.Collected.{IsValid}
use real_time_cr.Writer.Groups.{
  ConRevTradeDetails, Carried, TradeDetails, Averages, average, averages, make_con_rev,
  handle_group, con_rev, handle_groups, no_details, no_carried, total_all, queued,
}
use real_time_cr.Writer.Report.{IsReport, handle_group-IsReport, total_all-leg}
use real_time_cr.Writer.Faults.{last_found-some}
use real_time_cr.Writer.Totals.{last_found, total_all-scrip, volume_of}

-- An `int32_t` that is positive.
abbrev pub IsPositive : ℕ → Type 0
IsPositive n = (0 < n) × (n < 2 ^ 31)

average-positive : (v n : ℕ) → IsPositive n → (q : ℕ) × (average v n ≡ ok q)
unfolding average
average-positive v n (pos, lt) =
    let (q, e) = div64-positive v n pos lt in (q % 2 ^ 32, ground (arith, e))

averages-positive :
    (t : TradeDetails)
    → IsPositive t.traded_volume1
    → IsPositive t.traded_volume2
    → IsPositive t.traded_volume3
    → (a : Averages) × (averages t ≡ ok a)
unfolding averages
averages-positive t p1 p2 p3 =
    let (a1, e1) = average-positive t.traded_value1 t.traded_volume1 p1 in
    let (a2, e2) = average-positive t.traded_value2 t.traded_volume2 p2 in
    let (a3, e3) = average-positive t.traded_value3 t.traded_volume3 p3 in
    (
      record { avg_trade_price1 = a1; avg_trade_price2 = a2; avg_trade_price3 = a3 },
      rw (e1, e2, e3) refl,
    )

module _ (td : TokenDataStore) where
  -- The board lot of the trade's contract is a positive number.
  abbrev pub HasLot : BcastMsg → Type 0
  HasLot m = (info : OmsScripInfo) → find td m.token ≡ some info → IsPositive info.board_lot_qty

  last_found-lot :
      (ms : TradeMsgStore) (old : Option OmsScripInfo) (i : OmsScripInfo)
      → All HasLot ms
      → (old ≡ some i → IsPositive i.board_lot_qty)
      → last_found td old ms ≡ some i
      → IsPositive i.board_lot_qty
  last_found-lot [] old i lots h e = h e
  last_found-lot (m ∷ ms) old i (lot, lots) h e =
      last_found-lot ms (refresh td m old) i lots (λ f. now (find td m.token) refl f) e
    where
      now :
          (o : Option OmsScripInfo)
          → find td m.token ≡ o
          → refresh td m old ≡ some i
          → IsPositive i.board_lot_qty
      now none k f = h (ground arith)
      now (some info) k f = let same : info ≡ i = ground arith in lot i (k ∙ ap (λ x. some x) same)

  -- Where no division can trap, an accepted group gives a record.
  make_con_rev_runs :
      (stream : ℕ) (t : TradeDetails) (i : OmsScripInfo)
      → IsPositive t.traded_volume1
      → IsPositive t.traded_volume2
      → IsPositive t.traded_volume3
      → t.scrip ≡ some i
      → IsPositive i.board_lot_qty
      → (o : Option ConRevTradeDetails) × (make_con_rev stream t ≡ ok o)
  unfolding make_con_rev
  make_con_rev_runs stream t i p1 p2 p3 there lot =
      let (a, e) = averages-positive t p1 p2 p3 in
      let n = t.traded_volume1 / i.board_lot_qty in
      let priced : make_con_rev stream t ≡ queued stream t a = rw e refl in
      elim (Bool-cases (t.strategy_indentifier == 1 || t.strategy_indentifier == 2)) [
        | inl two ↦ (
          some (con_rev stream t a i n),
          priced
              ∙ ground (
                arith,
                two,
                there,
                div32-positive t.traded_volume1 i.board_lot_qty p1.1 lot.0 lot.1,
              ),
        )
        | inr other ↦ (none, priced ∙ ground (arith, other))
      ]

  module _ (stream : ℕ) (g : TradeMsgStore) where
    scrip :
        (c : Carried)
        → All HasLot g
        → last_found td none g ≢ none
        → (i : OmsScripInfo) × ((total_all td g (no_details c)).scrip ≡ some i)
          × IsPositive i.board_lot_qty
    scrip c lots there = go (last_found td none g) refl
      where
        go :
            (o : Option OmsScripInfo)
            → last_found td none g ≡ o
            → (i : OmsScripInfo) × ((total_all td g (no_details c)).scrip ≡ some i)
              × IsPositive i.board_lot_qty
        go none e = absurd (there e)
        go (some i) e =
            (i, total_all-scrip td g (no_details c) ∙ e, last_found-lot g none i lots (λ n. cc) e)

    -- An accepted group of a positive quantity in contracts with board lots: a record is queued.
    pub handle_group_runs :
        (c : Carried)
        → All (IsKnown td) g
        → All HasLot g
        → IsPositive (leg_qty td 1 g % 2 ^ 32)
        → is_validate_con_rev td g ≡ ok true
        → (r : ConRevTradeDetails) × (c' : Carried) × (handle_group td stream g c ≡ ok (some r, c'))
          × IsReport td stream g r
    unfolding handle_group
    handle_group_runs c known lots p valid =
        let t = total_all td g (no_details c) in
        let b = is_validate_con_rev-IsBalanced td g valid in
        let some_leg = b.complete fut in
        let not_nil : g ≢ [] = λ n. ground arith in
        let at : (l : Leg) → volume_of td l t ≡ leg_qty td (type_of l) g % 2 ^ 32 =
          λ l. total_all-leg td stream g c l in
        let p2 = subst IsPositive b.fut_call p in
        let p3 = subst IsPositive b.call_put p2 in
        let (i, there, lot) = scrip c lots (last_found-some td g none known (inr not_nil)) in
        let (o, made) =
          make_con_rev_runs stream t i (subst IsPositive (sym (at fut)) p)
            (subst IsPositive (sym (at put)) p3) (subst IsPositive (sym (at call)) p2) there lot in
        let run : handle_group td stream g c ≡ ok (o, t.carried) = rw (valid, made) refl in
        let (r, e, report) = handle_group-IsReport td stream g c t.carried o valid run in
        (r, t.carried, run ∙ ap (λ o. ok (o, t.carried)) e, report)

module _ (spsc : SpscQueue ConRevTradeDetails) (m : BcastMsg) (s : Stores spsc) where
  abbrev contracts : TokenDataStore
  contracts = s.token_data_store

  abbrev trades : TradeMsgStore
  trades = s.trade_msg_store

  -- The stores after an order that finds the one group.
  abbrev pub reported : ConRevTradeDetails → Stores spsc
  reported r = record s {
    trade_msg_store = [];
    token_store = [];
    con_rev_q = (enqueue spsc r s.con_rev_q).0;
  }

  Agrees-IsKnown :
      (expiry strike : ℕ) (ms : TradeMsgStore)
      → All (Agrees contracts expiry strike strike) ms
      → All (IsKnown contracts) ms
  Agrees-IsKnown expiry strike [] all = tt
  Agrees-IsKnown expiry strike (x ∷ ms) (a, all) =
      ((a.info, a.known), Agrees-IsKnown expiry strike ms all)

  one_group :
      IsValid spsc s
      → ((g : Leg) → has_leg contracts (type_of g) trades ≡ true)
      → length trades ≡ 3
      → split_trade contracts s.token_store trades ≡ ok (trades ∷ [])
  unfolding split_trade
  one_group v legs three =
      let least = has_three_tokens contracts trades legs in
      let most = length-tokens_of contracts trades [] in
      let tokens : length s.token_store ≡ 3 = rw v.tokens_eq (omega arith) in ground arith

  -- Three collected one-sided trades of known contracts, a future, a call and a put of one expiry
  -- date, the options of one strike price, in equal quantities and with opposed sides: the order
  -- that follows queues one record, which reports them, and clears the stores, if the quantity
  -- and the board lots are positive as `int32_t`.
  pub on_order_detects :
      (expiry strike : ℕ)
      → IsValid spsc s
      → length trades ≡ 3
      → All (Agrees contracts expiry strike strike) trades
      → ((g : Leg) → has_leg contracts (type_of g) trades ≡ true)
      → leg_qty contracts 1 trades % 2 ^ 32 ≡ leg_qty contracts 2 trades % 2 ^ 32
      → leg_qty contracts 2 trades % 2 ^ 32 ≡ leg_qty contracts 3 trades % 2 ^ 32
      → is_con_rev (mark_known contracts trades no_sides) ≡ true
      → All (HasLot contracts) trades
      → IsPositive (leg_qty contracts 1 trades % 2 ^ 32)
      → (r : ConRevTradeDetails) × IsReport contracts m.strem_id trades r
        × (on_order spsc m s ≡ ok (reported r))
  unfolding on_order enqueue_all handle_groups
  on_order_detects expiry strike v three all legs fc cp opposed lots p =
      let accepted =
        is_validate_con_rev_complete contracts expiry strike strike trades all legs fc cp opposed in
      let (r, c, run, report) =
        handle_group_runs contracts m.strem_id trades no_carried
          (Agrees-IsKnown expiry strike trades all) lots p accepted in
      let valid =
        validate_trade_msg_records_complete contracts expiry strike trades all legs opposed in
      let valid' : validate_trade_msg_records contracts s.token_store trades ≡ ok true =
        rw v.tokens_eq valid in
      (r, report, rw (valid', one_group v legs three, run) refl)
