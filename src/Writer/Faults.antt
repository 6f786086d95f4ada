-- ===== src/Writer/Faults.antt =====
-- Where `WriteDataInFile` has undefined behaviour on an order.
use real_time_cr.Prelude.{
  leb, ◌==◌, Bool-cases, length, All, Fault, null_pointer, division_by_zero, fault, deref, ℕ, ◌≤◌,
  ◌≡◌, refl, sym, ◌∙◌, ◌≢◌, ◌⊎◌, inl, inr, true, false, ◌||◌, Option, none, some, [], ◌∷◌, arith,
  bind-eq-fault,
}
use real_time_cr.Contract.{
  TokenDataStore, TradeMsgStore, IsKnown, OmsScripInfo, TradeVectorStore, fut,
}
use real_time_cr.Writer.Groups.{
  average, averages, handle_groups, handle_group, make_con_rev, TradeDetails, ConRevTradeDetails,
  Carried, queued, with_contract, total_all, no_details, no_carried,
}
use real_time_cr.Writer.{on_order, Stores}
use real_time_cr.Words.{div32, div64}
use real_time_cr.Validate.OnePass.{all_known, validate_trade_msg_records-eq}
use real_time_cr.ShmQueue.{SpscQueue}
use real_time_cr.Writer.Totals.{last_found, total_all-scrip}
use real_time_cr.ConRev.{is_validate_con_rev}
use real_time_cr.Split.Erase.{refresh}
use real_time_cr.Message.{BcastMsg}
use real_time_cr.ConRev.Safe.{is_validate_con_rev-fault}
use real_time_cr.Validate.{validate_trade_msg_records}
use real_time_cr.ConRev.Sound.{is_validate_con_rev-IsBalanced}
use real_time_cr.Split.Safe.{split_trade_safe}
use real_time_cr.Split.{split_trade}

module _ (td : TokenDataStore) where
  all_known-All : (ms : TradeMsgStore) → All (IsKnown td) ms → all_known td ms ≡ true
  all_known-All [] k = refl
  all_known-All (m ∷ ms) ((info, e), k) = ground (arith, e, all_known-All ms k)

  -- Only the divisions can fault on a group of known trades.
  average-fault : (v n : ℕ) (f : Fault) → average v n ≡ fault f → f ≡ division_by_zero
  unfolding average div64
  average-fault v n f h = ground arith

  div32-fault : (a b : ℕ) (f : Fault) → div32 a b ≡ fault f → f ≡ division_by_zero
  unfolding div32
  div32-fault a b f h = ground arith

  average_cases : (t : TradeDetails) (f : Fault) → averages t ≡ fault f → f ≡ division_by_zero
  unfolding averages
  average_cases t f h = elim (bind-eq-fault (average t.traded_value1 t.traded_volume1) _ h) [
    | inl e ↦ average-fault t.traded_value1 t.traded_volume1 f e
    | inr (a1, _, h1) ↦ elim (bind-eq-fault (average t.traded_value2 t.traded_volume2) _ h1) [
      | inl e ↦ average-fault t.traded_value2 t.traded_volume2 f e
      | inr (a2, _, h2) ↦ elim (bind-eq-fault (average t.traded_value3 t.traded_volume3) _ h2) [
        | inl e ↦ average-fault t.traded_value3 t.traded_volume3 f e
        | inr (a3, _, h3) ↦ cc
      ]
    ]
  ]

  -- A known packet at the end makes the contract pointer valid.
  pub last_found-some :
      (ms : TradeMsgStore) (old : Option OmsScripInfo)
      → All (IsKnown td) ms
      → (old ≢ none) ⊎ (ms ≢ [])
      → last_found td old ms ≢ none
  last_found-some [] old k (inl h) = h
  last_found-some [] old k (inr h) = absurd (h refl)
  last_found-some (m ∷ ms) old ((info, e), k) h =
      last_found-some ms (refresh td m old) k (inl (λ n. ground (arith, e)))

  make_con_rev-fault :
      (stream : ℕ) (t : TradeDetails) (f : Fault)
      → t.scrip ≢ none
      → make_con_rev stream t ≡ fault f
      → f ≡ division_by_zero
  unfolding make_con_rev
  make_con_rev-fault stream t f there h = elim (bind-eq-fault (averages t) (queued stream t) h) [
    | inl e ↦ average_cases t f e
    | inr (a, _, h1) ↦
        elim (Bool-cases (t.strategy_indentifier == 1 || t.strategy_indentifier == 2)) [
          | inr no_strategy ↦ absurd (ground arith)
          | inl two ↦
              elim (bind-eq-fault (deref t.scrip null_pointer) (with_contract stream t a)
                (rw two at h1)) [
                  | inl e ↦ absurd (there (deref_none t.scrip e))
                  | inr (info, _, h2) ↦
                      elim (bind-eq-fault (div32 t.traded_volume1 info.board_lot_qty) _ h2) [
                        | inl e ↦ div32-fault t.traded_volume1 info.board_lot_qty f e
                        | inr (n, _, h3) ↦ cc
                      ]
                ]
        ]
  ]
    where
      deref_none : (o : Option OmsScripInfo) → deref o null_pointer ≡ fault f → o ≡ none
      deref_none none e = refl
      deref_none (some i) e = cc

  handle_group-fault :
      (stream : ℕ) (g : TradeMsgStore) (c : Carried) (f : Fault)
      → All (IsKnown td) g
      → handle_group td stream g c ≡ fault f
      → f ≡ division_by_zero
  unfolding handle_group
  handle_group-fault stream g c f k h = elim (bind-eq-fault (is_validate_con_rev td g) _ h) [
    | inl e ↦ absurd (is_validate_con_rev-fault td g f k e)
    | inr (false, e, h1) ↦ cc
    | inr (true, e, h1) ↦
        let t = total_all td g (no_details c) in
        let some_leg = (is_validate_con_rev-IsBalanced td g e).complete fut in
        let not_nil : g ≢ [] = λ n. ground arith in
        let scrip = total_all-scrip td g (no_details c) in
        let there = last_found-some g none k (inr not_nil) in
        elim (bind-eq-fault (make_con_rev stream t) _ h1) [
          | inl e1 ↦ make_con_rev-fault stream t f (λ n. there (sym scrip ∙ n)) e1
          | inr (o, _, h2) ↦ cc
        ]
  ]

  handle_groups-fault :
      (stream : ℕ) (gs : TradeVectorStore) (c : Carried) (f : Fault)
      → All (All (IsKnown td)) gs
      → handle_groups td stream gs c ≡ fault f
      → f ≡ division_by_zero
  unfolding handle_groups
  handle_groups-fault stream [] c f k h = cc
  handle_groups-fault stream (g ∷ gs) c f (k, ks) h =
      elim (bind-eq-fault (handle_group td stream g c) _ h) [
        | inl e ↦ handle_group-fault stream g c f k e
        | inr ((o, c'), _, h1) ↦ elim (bind-eq-fault (handle_groups td stream gs c') _ h1) [
          | inl e ↦ handle_groups-fault stream gs c' f ks e
          | inr (rest, _, h2) ↦ cc
        ]
      ]

module _ (spsc : SpscQueue ConRevTradeDetails) where
  -- On an order, with all collected trades in known contracts, the only undefined behaviour is a
  -- division that traps.
  pub on_order-fault :
      (m : BcastMsg) (s : Stores spsc) (f : Fault)
      → All (IsKnown s.token_data_store) s.trade_msg_store
      → on_order spsc m s ≡ fault f
      → f ≡ division_by_zero
  unfolding on_order
  on_order-fault m s f k h =
      let td = s.token_data_store in
      let v = validate_trade_msg_records td s.token_store s.trade_msg_store in
      let known = all_known-All td s.trade_msg_store k in
      elim (bind-eq-fault v _ h) [
        | inl e ↦
            absurd
              (ground (arith, validate_trade_msg_records-eq td s.token_store s.trade_msg_store))
        | inr (false, e, h1) ↦ cc
        | inr (true, e, h1) ↦
            let (gs, split, ks) =
              split_trade_safe td (IsKnown td) s.token_store s.trade_msg_store k k in
            elim (bind-eq-fault (split_trade td s.token_store s.trade_msg_store) _ h1) [
              | inl e1 ↦ absurd (ground arith)
              | inr (gs', e1, h2) ↦
                  let same : gs ≡ gs' = ground arith in
                  elim (bind-eq-fault (handle_groups td m.strem_id gs' no_carried) _ h2) [
                    | inl e2 ↦
                        handle_groups-fault td m.strem_id gs' no_carried f (rw (← same) ks) e2
                    | inr (rs, _, h3) ↦ cc
                  ]
            ]
      ]

  -- With three tokens or more and a collected trade in no known contract, an order makes
  -- `WriteDataInFile` read through a null pointer.
  pub on_order_unknown :
      (m : BcastMsg) (s : Stores spsc)
      → 3 ≤ length s.token_store
      → all_known s.token_data_store s.trade_msg_store ≡ false
      → on_order spsc m s ≡ fault null_pointer
  unfolding on_order
  on_order_unknown m s h u =
      let long : leb 3 (length s.token_store) ≡ true = ground arith in
      let e = validate_trade_msg_records-eq s.token_data_store s.token_store s.trade_msg_store in
      let e' : validate_trade_msg_records s.token_data_store s.token_store s.trade_msg_store
          ≡ fault null_pointer =
        rw (long, u) at e in
      rw e'
