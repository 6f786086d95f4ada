-- ===== src/Split/Level.antt =====
-- The open group of `SplitTrade` and what is counted of it.
use real_time_cr.Prelude.{
  ◌==◌, if◌then◌else◌, ok, ◌>>=◌, bind-eq-ok, ℕ, ◌+◌, ◌%◌, ◌^◌, ◌<◌, ◌≡◌, refl, sym, ap, ◌∙◌, some,
  [], ◌∷◌, ◌++◌, arith,
}
use real_time_cr.Contract.{
  TokenDataStore, TradeMsgStore, leg_qty, OmsScripInfo, find, Leg, leg_type, type_of, insert,
  tokens_of, tokens_of-append, fut, call, put,
}
use real_time_cr.Message.{BcastMsg}
use real_time_cr.Split.Sums.{
  IsSummed, qty_of, add_details-qty, add_details-tokens, get_extra_details-reset,
}
use real_time_cr.Split.Details.{
  ExtraDetails, see, add_details, get_extra_details, reset_extra_details,
}
use real_time_cr.Words.{sub32}
use real_time_cr.Split.{
  rescan, SplitState, second_level_order_validation, get_extra_details, reset_extra_details,
}
use real_time_cr.Split.Erase.{second_level_order_validation}

module _ (td : TokenDataStore) where
  -- All of the group but the trade just added is counted.
  pub record IsOneShort (m : BcastMsg) (ms : TradeMsgStore) (d : ExtraDetails) : Type 0 where
    pub sums :
        (g : Leg)
        → (qty_of g d + (if leg_type td m == type_of g then m.trade_qty else 0)) % 2 ^ 32
          ≡ leg_qty td (type_of g) ms % 2 ^ 32
    pub small : (g : Leg) → qty_of g d < 2 ^ 32
    pub tokens : d.token_store ≡ tokens_of [] ms

  leg_qty-append :
      (l : ℕ) (ms : TradeMsgStore) (m : BcastMsg)
      → leg_qty td l (ms ++ (m ∷ []))
        ≡ leg_qty td l ms + (if leg_type td m == l then m.trade_qty else 0)
  leg_qty-append l [] m = omega arith
  leg_qty-append l (x ∷ ms) m = omega (arith, leg_qty-append l ms m)

  pub append-IsOneShort :
      (m : BcastMsg) (ms : TradeMsgStore) (d : ExtraDetails)
      → IsSummed td ms d
      → IsOneShort m (ms ++ (m ∷ [])) (see m d)
  unfolding IsSummed
  append-IsOneShort m ms d (q, t) = record {
    sums = sums;
    small = small;
    tokens = ap (insert m.token) t ∙ sym (tokens_of-append [] ms m);
  }
    where
      short :
          (g : Leg) (n : ℕ)
          → n ≡ leg_qty td (type_of g) ms % 2 ^ 32
          → (n + (if leg_type td m == type_of g then m.trade_qty else 0)) % 2 ^ 32
            ≡ leg_qty td (type_of g) (ms ++ (m ∷ [])) % 2 ^ 32
      short g n e = omega (arith, leg_qty-append (type_of g) ms m)

      sums :
          (g : Leg)
          → (qty_of g (see m d) + (if leg_type td m == type_of g then m.trade_qty else 0)) % 2 ^ 32
            ≡ leg_qty td (type_of g) (ms ++ (m ∷ [])) % 2 ^ 32
      sums fut = short fut d.fut_qty (q fut)
      sums call = short call d.call_qty (q call)
      sums put = short put d.put_qty (q put)

      small : (g : Leg) → qty_of g (see m d) < 2 ^ 32
      small fut = omega (arith, q fut)
      small call = omega (arith, q call)
      small put = omega (arith, q put)

  -- The trade counted.
  pub add_details-IsSummed :
      (info : OmsScripInfo) (m : BcastMsg) (ms : TradeMsgStore) (d : ExtraDetails)
      → find td m.token ≡ some info
      → IsOneShort m ms d
      → IsSummed td ms (add_details info m d)
  unfolding IsSummed
  add_details-IsSummed info m ms d known o = (
    λ g. ground (arith, known, add_details-qty td g info m d, o.sums g, o.small g),
    add_details-tokens td info m d ∙ o.tokens,
  )

  -- What `rescan` leaves.
  pub rescan-IsSummed :
      (n : ℕ) (s t : SplitState)
      → rescan td n s ≡ ok t
      → IsSummed td t.trade_msg_store t.details × (t.trade_vector_store ≡ s.trade_vector_store)
  unfolding rescan
  rescan-IsSummed n s t h =
      let (ms, _, h1) =
        bind-eq-ok (second_level_order_validation td n s.trade_msg_store)
          (λ ms. get_extra_details td ms reset_extra_details >>= λ d.
            ok (record s { trade_msg_store = ms; details = d }))
          h in
      let (d, e, h2) =
        bind-eq-ok (get_extra_details td ms reset_extra_details)
          (λ d. ok (record s { trade_msg_store = ms; details = d })) h1 in
      let same : record s { trade_msg_store = ms; details = d } ≡ t = ground arith in
      rw (← same) ((get_extra_details-reset td ms d e).0, refl)

  -- The quantity of the leg without the trade that it is given again.

  pub without_fut :
      (m : BcastMsg) (ms : TradeMsgStore) (d : ExtraDetails)
      → leg_type td m ≡ 1
      → IsSummed td ms d
      → IsOneShort m ms (record d { fut_qty = sub32 d.fut_qty m.trade_qty })
  unfolding IsSummed
  without_fut m ms d type (q, t) = record { sums = sums; small = small; tokens = t }
    where
      d1 : ExtraDetails
      d1 = record d { fut_qty = sub32 d.fut_qty m.trade_qty }

      sums :
          (g : Leg)
          → (qty_of g d1 + (if leg_type td m == type_of g then m.trade_qty else 0)) % 2 ^ 32
            ≡ leg_qty td (type_of g) ms % 2 ^ 32
      sums fut = ground (arith, type, q fut)
      sums call = ground (arith, type, q call)
      sums put = ground (arith, type, q put)

      small : (g : Leg) → qty_of g d1 < 2 ^ 32
      small fut = ground (arith, q fut)
      small call = ground (arith, q call)
      small put = ground (arith, q put)

  pub without_call :
      (m : BcastMsg) (ms : TradeMsgStore) (d : ExtraDetails)
      → leg_type td m ≡ 2
      → IsSummed td ms d
      → IsOneShort m ms (record d { call_qty = sub32 d.call_qty m.trade_qty })
  unfolding IsSummed
  without_call m ms d type (q, t) = record { sums = sums; small = small; tokens = t }
    where
      d1 : ExtraDetails
      d1 = record d { call_qty = sub32 d.call_qty m.trade_qty }

      sums :
          (g : Leg)
          → (qty_of g d1 + (if leg_type td m == type_of g then m.trade_qty else 0)) % 2 ^ 32
            ≡ leg_qty td (type_of g) ms % 2 ^ 32
      sums fut = ground (arith, type, q fut)
      sums call = ground (arith, type, q call)
      sums put = ground (arith, type, q put)

      small : (g : Leg) → qty_of g d1 < 2 ^ 32
      small fut = ground (arith, q fut)
      small call = ground (arith, q call)
      small put = ground (arith, q put)

  pub without_put :
      (m : BcastMsg) (ms : TradeMsgStore) (d : ExtraDetails)
      → leg_type td m ≡ 3
      → IsSummed td ms d
      → IsOneShort m ms (record d { put_qty = sub32 d.put_qty m.trade_qty })
  unfolding IsSummed
  without_put m ms d type (q, t) = record { sums = sums; small = small; tokens = t }
    where
      d1 : ExtraDetails
      d1 = record d { put_qty = sub32 d.put_qty m.trade_qty }

      sums :
          (g : Leg)
          → (qty_of g d1 + (if leg_type td m == type_of g then m.trade_qty else 0)) % 2 ^ 32
            ≡ leg_qty td (type_of g) ms % 2 ^ 32
      sums fut = ground (arith, type, q fut)
      sums call = ground (arith, type, q call)
      sums put = ground (arith, type, q put)

      small : (g : Leg) → qty_of g d1 < 2 ^ 32
      small fut = ground (arith, q fut)
      small call = ground (arith, q call)
      small put = ground (arith, q put)
