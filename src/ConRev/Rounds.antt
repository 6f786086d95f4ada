-- ===== src/ConRev/Rounds.antt =====
-- What one round and all rounds of the loop of `IsValidateConRev` do to each of its variables.
use real_time_cr.Prelude.{
  ◌==◌, if◌then◌else◌, Option-cases, ok, ℕ, ◌+◌, ◌%◌, ◌^◌, ◌≡◌, inl, inr, Bool, true, false, ◌||◌,
  Option, none, some, [], ◌∷◌, arith,
}
use real_time_cr.Message.{BcastMsg}
use real_time_cr.Contract.{
  OmsScripInfo, TokenDataStore, TradeMsgStore, find, is_unsided, Leg, type_of, fut, call, put,
}
use real_time_cr.ConRev.{
  Scan, Sides, mark, scan_leg, scan_one, scan_all, scan_fut, scan_call, scan_put,
}

-- The side characters after one trade and after all trades of a group.
abbrev pub mark_found : Option OmsScripInfo → BcastMsg → Sides → Sides
mark_found none m s = s
mark_found (some info) m s = mark info m s

abbrev pub mark_trade : TokenDataStore → BcastMsg → Sides → Sides
mark_trade td m = mark_found (find td m.token) m

abbrev pub mark_known : TokenDataStore → TradeMsgStore → Sides → Sides
mark_known td [] s = s
mark_known td (m ∷ ms) s = mark_known td ms (mark_trade td m s)

-- A round that goes on.
pub record Round (td : TokenDataStore) (m : BcastMsg) (s : Scan) : Type 0 where
  pub info : OmsScripInfo
  pub after : Scan
  pub sided : is_unsided m ≡ false
  pub known : find td m.token ≡ some info
  pub leg : scan_leg info m s ≡ some after

-- The loop that reaches its end went through a round for the first trade.
pub scan_all-Round :
    (td : TokenDataStore) (m : BcastMsg) (ms : TradeMsgStore) (s s' : Scan)
    → scan_all td (m ∷ ms) s ≡ ok (some s')
    → (r : Round td m s) × (scan_all td ms r.after ≡ ok (some s'))
unfolding scan_all scan_one
scan_all-Round td m ms s s' h = elim (Option-cases (find td m.token)) [
  | inl e ↦ ground arith
  | inr (info, e) ↦ elim (Option-cases (scan_leg info m s)) [
    | inl f ↦ ground arith
    | inr (s1, f) ↦
        (record { info = info; after = s1; sided = ground arith; known = e; leg = f }, ground arith)
  ]
]

-- The sum and the flag of a leg.
abbrev pub sum_of : Leg → Scan → ℕ
sum_of fut s = s.fut_qty
sum_of call s = s.call_qty
sum_of put s = s.put_qty

abbrev pub flag_of : Leg → Scan → Bool
flag_of fut s = s.fut_token
flag_of call s = s.call_token
flag_of put s = s.put_token

-- The strike price that an option leg was seen with.
abbrev pub strike_of : Leg → Scan → ℕ
strike_of fut s = 0
strike_of call s = s.strike_price1
strike_of put s = s.strike_price2

abbrev pub IsOption : Leg → Type 0
IsOption fut = ⊥
IsOption call = Unit
IsOption put = Unit

-- What a round does to the variables.
pub record Effect (info : OmsScripInfo) (m : BcastMsg) (s s1 : Scan) : Type 0 where
  pub sum :
      (g : Leg)
      → sum_of g s1 ≡ (
          if info.custom_instrument_type == type_of g
          then (sum_of g s + m.trade_qty) % 2 ^ 32
          else sum_of g s)
  pub flag : (g : Leg) → flag_of g s1 ≡ (info.custom_instrument_type == type_of g || flag_of g s)
  pub marked : s1.sides ≡ mark info m s.sides
  -- An option seen before keeps its strike price, and a trade in it has that price.
  pub strike : (g : Leg) → IsOption g → flag_of g s ≡ true → strike_of g s1 ≡ strike_of g s
  pub priced :
      (g : Leg)
      → IsOption g
      → info.custom_instrument_type ≡ type_of g
      → strike_of g s1 ≡ info.strike_price

scan_leg-sum :
    (info : OmsScripInfo) (m : BcastMsg) (s s1 : Scan)
    → scan_leg info m s ≡ some s1
    → (g : Leg)
    → sum_of g s1 ≡ (
        if info.custom_instrument_type == type_of g
        then (sum_of g s + m.trade_qty) % 2 ^ 32
        else sum_of g s)
unfolding scan_leg scan_fut scan_call scan_put
scan_leg-sum info m s s1 h fut = ground arith
scan_leg-sum info m s s1 h _ = ground arith

scan_leg-flag :
    (info : OmsScripInfo) (m : BcastMsg) (s s1 : Scan)
    → scan_leg info m s ≡ some s1
    → (g : Leg) → flag_of g s1 ≡ (info.custom_instrument_type == type_of g || flag_of g s)
unfolding scan_leg scan_fut scan_call scan_put
scan_leg-flag info m s s1 h fut = ground arith
scan_leg-flag info m s s1 h _ = ground arith

scan_leg-strike :
    (info : OmsScripInfo) (m : BcastMsg) (s s1 : Scan)
    → scan_leg info m s ≡ some s1
    → (g : Leg) → IsOption g
    → flag_of g s ≡ true
    → strike_of g s1 ≡ strike_of g s
unfolding scan_leg scan_fut scan_call scan_put
scan_leg-strike info m s s1 h fut o _ = absurd o
scan_leg-strike info m s s1 h _ o seen = ground arith

scan_leg-priced :
    (info : OmsScripInfo) (m : BcastMsg) (s s1 : Scan)
    → scan_leg info m s ≡ some s1
    → (g : Leg) → IsOption g
    → info.custom_instrument_type ≡ type_of g
    → strike_of g s1 ≡ info.strike_price
unfolding scan_leg scan_fut scan_call scan_put
scan_leg-priced info m s s1 h fut o _ = absurd o
scan_leg-priced info m s s1 h _ o e = ground arith

scan_leg-marked :
    (info : OmsScripInfo) (m : BcastMsg) (s s1 : Scan)
    → scan_leg info m s ≡ some s1
    → s1.sides ≡ mark info m s.sides
unfolding scan_leg scan_fut scan_call scan_put
scan_leg-marked info m s s1 h = ground arith

pub scan_leg-Effect :
    (info : OmsScripInfo) (m : BcastMsg) (s s1 : Scan)
    → scan_leg info m s ≡ some s1
    → Effect info m s s1
scan_leg-Effect info m s s1 h = record {
  sum = scan_leg-sum info m s s1 h;
  flag = scan_leg-flag info m s s1 h;
  marked = scan_leg-marked info m s s1 h;
  strike = scan_leg-strike info m s s1 h;
  priced = scan_leg-priced info m s s1 h;
}
