-- ===== src/ConRev/Complete.antt =====
-- Groups that `IsValidateConRev` does not refuse.
use real_time_cr.Prelude.{All, ok, ℕ, ◌%◌, ◌^◌, ◌<◌, ◌≡◌, refl, true, false, some, [], ◌∷◌, arith}
use real_time_cr.Contract.{
  TokenDataStore, OmsScripInfo, find, switch, is_unsided, TradeMsgStore, Leg, has_leg, type_of,
  leg_qty, fut, call, put,
}
use real_time_cr.ConRev.{
  Scan, scan_leg, scan_all, is_validate_con_rev, scan_one, find, switch, verdict, scan_fut,
  is_unsided, scan_call, mark, TradeMsgStore, add32, scan_put, is_con_rev, no_sides, no_scan,
}
use real_time_cr.Message.{BcastMsg}
use real_time_cr.Words.{add32}
use real_time_cr.ConRev.Rounds.{mark_known, sum_of}
use real_time_cr.ConRev.Sound.{scan_all-sum, scan_all-flag, scan_all-marked}

module _ (td : TokenDataStore) (expiry call_strike put_strike : ℕ) where
  -- A known one-sided trade of this expiry date and, in an option, of the leg's strike price.
  pub record Agrees (m : BcastMsg) : Type 0 where
    pub info : OmsScripInfo
    pub known : find td m.token ≡ some info
    pub sided : is_unsided m ≡ false
    pub expiry_eq : info.expiry_date ≡ expiry
    pub call_eq : info.custom_instrument_type ≡ 2 → info.strike_price ≡ call_strike
    pub put_eq : info.custom_instrument_type ≡ 3 → info.strike_price ≡ put_strike

  record IsReady (s : Scan) : Type 0 where
    after_fut : s.fut_token ≡ true → s.expiry_date ≡ expiry
    after_call : s.call_token ≡ true → (s.expiry_date ≡ expiry) × (s.strike_price1 ≡ call_strike)
    after_put : s.put_token ≡ true → (s.expiry_date ≡ expiry) × (s.strike_price2 ≡ put_strike)

  -- What a round makes of the variables when nothing is refused.
  next : OmsScripInfo → BcastMsg → Scan → Scan
  next info m s =
      switch info.custom_instrument_type
        (record s {
          fut_token = true;
          expiry_date = info.expiry_date;
          sides = mark info m s.sides;
          fut_qty = add32 s.fut_qty m.trade_qty;
        })
        (record s {
          call_token = true;
          strike_price1 = info.strike_price;
          expiry_date = info.expiry_date;
          sides = mark info m s.sides;
          call_qty = add32 s.call_qty m.trade_qty;
        })
        (record s {
          put_token = true;
          strike_price2 = info.strike_price;
          expiry_date = info.expiry_date;
          sides = mark info m s.sides;
          put_qty = add32 s.put_qty m.trade_qty;
        })
        s

  scan_leg-next :
      (m : BcastMsg) (s : Scan) (a : Agrees m)
      → IsReady s
      → scan_leg a.info m s ≡ some (next a.info m s)
  unfolding scan_leg scan_fut scan_call scan_put next
  scan_leg-next m s a r = ground arith

  next-IsReady : (m : BcastMsg) (s : Scan) (a : Agrees m) → IsReady s → IsReady (next a.info m s)
  unfolding next
  next-IsReady m s a r = ground arith

  scan_all_runs :
      (ms : TradeMsgStore) (s : Scan)
      → All Agrees ms
      → IsReady s
      → (s' : Scan) × (scan_all td ms s ≡ ok (some s'))
  unfolding scan_all scan_one
  scan_all_runs [] s a r = (s, refl)
  scan_all_runs (m ∷ ms) s (a, rest) r =
      let (s', run) = scan_all_runs ms (next a.info m s) rest (next-IsReady m s a r) in
      (s', ground (arith, a.known, a.sided, scan_leg-next m s a r))

  -- One-sided trades of known contracts that agree on the expiry date, options also on the strike
  -- price of their leg, are accepted if all legs are there with equal quantities (as `int32_t`) and
  -- opposed last sides.
  pub is_validate_con_rev_complete :
      (ms : TradeMsgStore)
      → All Agrees ms
      → ((g : Leg) → has_leg td (type_of g) ms ≡ true)
      → leg_qty td 1 ms % 2 ^ 32 ≡ leg_qty td 2 ms % 2 ^ 32
      → leg_qty td 2 ms % 2 ^ 32 ≡ leg_qty td 3 ms % 2 ^ 32
      → is_con_rev (mark_known td ms no_sides) ≡ true
      → is_validate_con_rev td ms ≡ ok true
  unfolding is_validate_con_rev verdict
  is_validate_con_rev_complete ms a legs fc cp opp =
      let (s, run) =
        scan_all_runs ms no_scan a
          (record { after_fut = λ e. cc; after_call = λ e. cc; after_put = λ e. cc }) in
      let sums =
        λ (g : Leg) (h : sum_of g no_scan < 2 ^ 32). scan_all-sum td g ms no_scan s run h in
      let flags = λ (g : Leg). scan_all-flag td g ms no_scan s run in
      ground (
        arith,
        sums fut (omega arith),
        sums call (omega arith),
        sums put (omega arith),
        flags fut,
        flags call,
        flags put,
        legs fut,
        legs call,
        legs put,
        scan_all-marked td ms no_scan s run,
      )
