-- ===== src/Writer/Totals.antt =====
-- What the loop over a group adds up.
use real_time_cr.Prelude.{
  ◌==◌, if◌then◌else◌, Bool-cases, Option-cases, ℕ, ◌+◌, ◌%◌, ◌^◌, ◌<◌, ◌≡◌, refl, ap, ◌∙◌, inl,
  inr, true, Option, none, some, [], ◌∷◌, arith,
}
use real_time_cr.Contract.{
  TokenDataStore, TradeMsgStore, leg_qty, find, OmsScripInfo, switch, has_leg, leg_type, Leg, fut,
  type_of, call, put,
}
use real_time_cr.Message.{buy_indicator_char, sell_indicator_char, BcastMsg}
use real_time_cr.Writer.Groups.{total_all, TradeDetails, total_one}
use real_time_cr.ConRev.{Sides}
use real_time_cr.ConRev.Rounds.{mark_known, mark_trade}
use real_time_cr.Split.Erase.{refresh}
use real_time_cr.Words.{add64, add32, mul64, widen}

module _ (td : TokenDataStore) where
  -- The volume and the value of a leg.
  abbrev pub volume_of : Leg → TradeDetails → ℕ
  volume_of fut t = t.traded_volume1
  volume_of call t = t.traded_volume3
  volume_of put t = t.traded_volume2

  abbrev pub value_of : Leg → TradeDetails → ℕ
  value_of fut t = t.traded_value1
  value_of call t = t.traded_value3
  value_of put t = t.traded_value2

  -- What a trade costs for each unit: an option's premium with its strike price.
  abbrev leg_price : BcastMsg → ℕ
  leg_price m = elim (find td m.token) [
    | none ↦ m.trade_price
    | some info ↦
        if info.custom_instrument_type == 1
        then m.trade_price
        else add32 m.trade_price info.strike_price
  ]

  -- The values of the trades of one leg added up, in `int64_t`.
  abbrev pub leg_value : ℕ → ℕ → TradeMsgStore → ℕ
  leg_value leg old [] = old
  leg_value leg old (m ∷ ms) =
      leg_value leg
        (if leg_type td m == leg
          then add64 old (mul64 (widen m.trade_qty) (widen (leg_price m)))
          else old)
        ms

  total_one-volume :
      (g : Leg) (m : BcastMsg) (t : TradeDetails)
      → volume_of g (total_one td m t)
        ≡ (if leg_type td m == type_of g then add32 (volume_of g t) m.trade_qty else volume_of g t)
  unfolding total_one
  total_one-volume fut m t = ground arith
  total_one-volume call m t = ground arith
  total_one-volume put m t = ground arith

  total_one-value :
      (g : Leg) (m : BcastMsg) (t : TradeDetails)
      → value_of g (total_one td m t) ≡ (
          if leg_type td m == type_of g
          then add64 (value_of g t) (mul64 (widen m.trade_qty) (widen (leg_price m)))
          else value_of g t)
  unfolding total_one
  total_one-value fut m t = ground arith
  total_one-value call m t = ground arith
  total_one-value put m t = ground arith

  -- The volume of a leg is the sum over its trades.
  pub total_all-volume :
      (g : Leg) (ms : TradeMsgStore) (t : TradeDetails)
      → volume_of g t < 2 ^ 32
      → volume_of g (total_all td ms t) ≡ (volume_of g t + leg_qty td (type_of g) ms) % 2 ^ 32
  unfolding total_all
  total_all-volume g [] t h = omega arith
  total_all-volume g (m ∷ ms) t h =
      ground (arith, total_one-volume g m t, total_all-volume g ms (total_one td m t))

  pub total_all-value :
      (g : Leg) (ms : TradeMsgStore) (t : TradeDetails)
      → value_of g (total_all td ms t) ≡ leg_value (type_of g) (value_of g t) ms
  unfolding total_all
  total_all-value g [] t = refl
  total_all-value g (m ∷ ms) t =
      total_all-value g ms (total_one td m t)
      ∙ ap (λ v. leg_value (type_of g) v ms) (total_one-value g m t)

  -- The side of the future that a strategy stands for.
  abbrev pub side_of : ℕ → ℕ
  side_of s = if s == 1 then buy_indicator_char else if s == 2 then sell_indicator_char else 0

  pub total_all-strategy :
      (ms : TradeMsgStore) (t : TradeDetails) (s : Sides)
      → s.fut_buy_sell ≡ side_of t.strategy_indentifier
      → (mark_known td ms s).fut_buy_sell ≡ side_of (total_all td ms t).strategy_indentifier
  unfolding total_all
  total_all-strategy [] t s h = h
  total_all-strategy (m ∷ ms) t s h = elim (Option-cases (find td m.token)) [
    | inl e ↦ ground (arith, total_all-strategy ms (total_one td m t) (mark_trade td m s))
    | inr (info, e) ↦ ground (arith, total_all-strategy ms (total_one td m t) (mark_trade td m s))
  ]

  -- The sequence number and the time of the last packet.
  abbrev pub last_seq : ℕ → TradeMsgStore → ℕ
  last_seq old [] = old
  last_seq old (m ∷ ms) = last_seq m.seq_no ms

  abbrev pub last_timestamp : ℕ → TradeMsgStore → ℕ
  last_timestamp old [] = old
  last_timestamp old (m ∷ ms) = last_timestamp m.timestamp ms

  pub total_all-carried :
      (ms : TradeMsgStore) (t : TradeDetails)
      → let c = (total_all td ms t).carried in
        (c.last_seq_no ≡ last_seq t.carried.last_seq_no ms)
        × (c.timestamp ≡ last_timestamp t.carried.timestamp ms)
  unfolding total_all
  total_all-carried [] t = (refl, refl)
  total_all-carried (m ∷ ms) t = elim (Option-cases (find td m.token)) [
    | inl e ↦ ground (arith, total_all-carried ms (total_one td m t))
    | inr (info, e) ↦ ground (arith, total_all-carried ms (total_one td m t))
  ]

  -- The contract of the last packet in a known contract.
  abbrev pub last_found : Option OmsScripInfo → TradeMsgStore → Option OmsScripInfo
  last_found old [] = old
  last_found old (m ∷ ms) = last_found (refresh td m old) ms

  pub total_all-scrip :
      (ms : TradeMsgStore) (t : TradeDetails) → (total_all td ms t).scrip ≡ last_found t.scrip ms
  unfolding total_all
  total_all-scrip [] t = refl
  total_all-scrip (m ∷ ms) t = elim (Option-cases (find td m.token)) [
    | inl e ↦ ground (arith, total_all-scrip ms (total_one td m t))
    | inr (info, e) ↦ ground (arith, total_all-scrip ms (total_one td m t))
  ]

  -- The strike price of the last option, and the expiry date of the last future.
  abbrev option_strike : ℕ → BcastMsg → ℕ
  option_strike old m = elim (find td m.token) [
    | none ↦ old
    | some info ↦ switch info.custom_instrument_type old info.strike_price info.strike_price old
  ]

  abbrev future_expiry : ℕ → BcastMsg → ℕ
  future_expiry old m = elim (find td m.token) [
    | none ↦ old
    | some info ↦ switch info.custom_instrument_type info.expiry_date old old old
  ]

  abbrev pub last_strike : ℕ → TradeMsgStore → ℕ
  last_strike old [] = old
  last_strike old (m ∷ ms) = last_strike (option_strike old m) ms

  abbrev pub last_expiry : ℕ → TradeMsgStore → ℕ
  last_expiry old [] = old
  last_expiry old (m ∷ ms) = last_expiry (future_expiry old m) ms

  pub total_all-terms :
      (ms : TradeMsgStore) (t : TradeDetails)
      → ((total_all td ms t).strike_price ≡ last_strike t.strike_price ms)
        × ((total_all td ms t).carried.expiry_date1 ≡ last_expiry t.carried.expiry_date1 ms)
  unfolding total_all
  total_all-terms [] t = (refl, refl)
  total_all-terms (m ∷ ms) t = elim (Option-cases (find td m.token)) [
    | inl e ↦ ground (arith, total_all-terms ms (total_one td m t))
    | inr (info, e) ↦ ground (arith, total_all-terms ms (total_one td m t))
  ]

  -- With a packet there, or a future, it does not matter what was carried over.
  pub last_packet :
      (ms : TradeMsgStore) (a b c d : ℕ) (l : ℕ)
      → has_leg td l ms ≡ true
      → (last_seq a ms ≡ last_seq b ms) × (last_timestamp c ms ≡ last_timestamp d ms)
  last_packet [] a b c d l h = absurd (ground arith)
  last_packet (m ∷ ms) a b c d l h = (refl, refl)

  pub last_future :
      (ms : TradeMsgStore) (a b : ℕ) → has_leg td 1 ms ≡ true → last_expiry a ms ≡ last_expiry b ms
  last_future [] a b h = cc
  last_future (m ∷ ms) a b h = elim (Bool-cases (leg_type td m == 1)) [
    | inl f ↦ ap (λ n. last_expiry n ms) (ground arith)
    | inr o ↦ last_future ms (future_expiry a m) (future_expiry b m) (ground arith)
  ]
