-- ===== src/ConRev/Sound.antt =====
-- What `IsValidateConRev` guarantees of a group that it accepts.
use real_time_cr.Prelude.{
  All, Exec, ok, fault, ◌>>=◌, ℕ, ◌+◌, ◌%◌, ◌^◌, ◌<◌, ◌≡◌, refl, true, false, ◌||◌, Option, none,
  some, [], ◌∷◌, arith,
}
use real_time_cr.ConRev.Rounds.{
  scan_all-Round, scan_leg-Effect, sum_of, flag_of, strike_of, IsOption, mark_known,
}
use real_time_cr.Contract.{
  TokenDataStore, TradeMsgStore, OmsScripInfo, is_unsided, Leg, IsKnown, leg_qty, has_leg, find,
  type_of, fut, call, put,
}
use real_time_cr.Message.{BcastMsg}
use real_time_cr.ConRev.{
  scan_all, Scan, is_unsided, OmsScripInfo, find, is_con_rev, no_sides, is_validate_con_rev,
  verdict, no_scan,
}

module _ (td : TokenDataStore) where
  pub scan_all-sum :
      (g : Leg) (ms : TradeMsgStore) (s s' : Scan)
      → scan_all td ms s ≡ ok (some s')
      → sum_of g s < 2 ^ 32
      → sum_of g s' ≡ (sum_of g s + leg_qty td (type_of g) ms) % 2 ^ 32
  unfolding scan_all
  scan_all-sum g [] s s' h small = let e : s ≡ s' = ground arith in rw (← e) (omega arith)
  scan_all-sum g (m ∷ ms) s s' h small =
      let (r, rest) = scan_all-Round td m ms s s' h in
      let e = scan_leg-Effect r.info m s r.after r.leg in
      ground (arith, r.known, e.sum g, scan_all-sum g ms r.after s' rest)

  pub scan_all-flag :
      (g : Leg) (ms : TradeMsgStore) (s s' : Scan)
      → scan_all td ms s ≡ ok (some s')
      → flag_of g s' ≡ (has_leg td (type_of g) ms || flag_of g s)
  unfolding scan_all
  scan_all-flag g [] s s' h = let e : s ≡ s' = ground arith in rw e
  scan_all-flag g (m ∷ ms) s s' h =
      let (r, rest) = scan_all-Round td m ms s s' h in
      let e = scan_leg-Effect r.info m s r.after r.leg in
      ground (arith, r.known, e.flag g, scan_all-flag g ms r.after s' rest)

  pub scan_all-marked :
      (ms : TradeMsgStore) (s s' : Scan)
      → scan_all td ms s ≡ ok (some s')
      → s'.sides ≡ mark_known td ms s.sides
  unfolding scan_all
  scan_all-marked [] s s' h = ground arith
  scan_all-marked (m ∷ ms) s s' h =
      let (r, rest) = scan_all-Round td m ms s s' h in
      let e = scan_leg-Effect r.info m s r.after r.leg in
      ground (arith, r.known, e.marked, scan_all-marked ms r.after s' rest)

  scan_all-strike :
      (g : Leg) (ms : TradeMsgStore) (s s' : Scan)
      → IsOption g
      → scan_all td ms s ≡ ok (some s')
      → flag_of g s ≡ true
      → strike_of g s' ≡ strike_of g s
  unfolding scan_all
  scan_all-strike g [] s s' o h seen = let e : s ≡ s' = ground arith in rw e
  scan_all-strike g (m ∷ ms) s s' o h seen =
      let (r, rest) = scan_all-Round td m ms s s' h in
      let e = scan_leg-Effect r.info m s r.after r.leg in
      ground (arith, e.strike g o seen, e.flag g, scan_all-strike g ms r.after s' o rest)

  -- A trade in the leg has this strike price.
  abbrev pub HasStrike : ℕ → ℕ → BcastMsg → Type 0
  HasStrike leg k m =
      (info : OmsScripInfo)
      → find td m.token ≡ some info
      → info.custom_instrument_type ≡ leg
      → info.strike_price ≡ k

  scan_all-HasStrike :
      (g : Leg) (ms : TradeMsgStore) (s s' : Scan)
      → IsOption g
      → scan_all td ms s ≡ ok (some s')
      → All (HasStrike (type_of g) (strike_of g s')) ms
  unfolding scan_all
  scan_all-HasStrike g [] s s' o h = tt
  scan_all-HasStrike g (m ∷ ms) s s' o h =
      let (r, rest) = scan_all-Round td m ms s s' h in
      let e = scan_leg-Effect r.info m s r.after r.leg in
      (
        λ info known t.
            ground (arith, r.known, e.priced g o, e.flag g, scan_all-strike g ms r.after s' o rest),
        scan_all-HasStrike g ms r.after s' o rest,
      )

  -- A trade with exactly one order id, in a known contract.
  abbrev pub IsOneSided : BcastMsg → Type 0
  IsOneSided m = (is_unsided m ≡ false) × IsKnown td m

  scan_all-IsOneSided :
      (ms : TradeMsgStore) (s s' : Scan) → scan_all td ms s ≡ ok (some s') → All IsOneSided ms
  unfolding scan_all
  scan_all-IsOneSided [] s s' h = tt
  scan_all-IsOneSided (m ∷ ms) s s' h =
      let (r, rest) = scan_all-Round td m ms s s' h in
      ((r.sided, (r.info, r.known)), scan_all-IsOneSided ms r.after s' rest)

  -- A balanced conversion or reversal.
  pub record IsBalanced (ms : TradeMsgStore) : Type 0 where
    pub one_sided : All IsOneSided ms
    pub complete : (g : Leg) → has_leg td (type_of g) ms ≡ true
    pub fut_call : leg_qty td 1 ms % 2 ^ 32 ≡ leg_qty td 2 ms % 2 ^ 32
    pub call_put : leg_qty td 2 ms % 2 ^ 32 ≡ leg_qty td 3 ms % 2 ^ 32
    pub strike : (g : Leg) → IsOption g → (k : ℕ) × All (HasStrike (type_of g) k) ms
    pub opposed : is_con_rev (mark_known td ms no_sides) ≡ true

  accepted :
      (r : Exec (Option Scan))
      → (r >>= λ o. ok (verdict o)) ≡ ok true
      → (s : Scan) × (r ≡ ok (some s)) × (verdict (some s) ≡ true)
  unfolding verdict
  accepted (ok (some s)) h = (s, refl, ground arith)
  accepted (ok none) h = cc
  accepted (fault e) h = cc

  -- Whatever `IsValidateConRev` accepts is balanced: every trade has exactly one order id and a known
  -- token, all three legs are there, their quantities agree as `int32_t`, the calls have one strike
  -- price and so have the puts, and the last sides of future and put are opposed to the call's.
  pub is_validate_con_rev-IsBalanced :
      (ms : TradeMsgStore) → is_validate_con_rev td ms ≡ ok true → IsBalanced ms
  unfolding is_validate_con_rev
  is_validate_con_rev-IsBalanced ms h =
      let (s, run, good) = accepted (scan_all td ms no_scan) h in
      let sums = λ (g : Leg). scan_all-sum g ms no_scan s run (none_small g) in
      let flags = λ (g : Leg). scan_all-flag g ms no_scan s run in
      record {
        one_sided = scan_all-IsOneSided ms no_scan s run;
        complete = all_flags s good ms flags;
        fut_call = ground (arith, sums fut, sums call);
        call_put = ground (arith, sums call, sums put);
        strike = λ g o. (strike_of g s, scan_all-HasStrike g ms no_scan s o run);
        opposed = ground (arith, scan_all-marked ms no_scan s run);
      }
    where
      none_small : (g : Leg) → sum_of g no_scan < 2 ^ 32
      none_small fut = omega arith
      none_small call = omega arith
      none_small put = omega arith

      all_flags :
          (s : Scan)
          → verdict (some s) ≡ true
          → (ms : TradeMsgStore)
          → ((g : Leg) → flag_of g s ≡ (has_leg td (type_of g) ms || flag_of g no_scan))
          → (g : Leg) → has_leg td (type_of g) ms ≡ true
      all_flags s good ms f fut = ground (arith, f fut)
      all_flags s good ms f call = ground (arith, f call)
      all_flags s good ms f put = ground (arith, f put)
