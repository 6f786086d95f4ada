-- ===== src/Writer/Collected.antt =====
-- What `WriteDataInFile` keeps of the trades it has collected, and where it may fault.
use real_time_cr.Prelude.{
  ◌==◌, Bool-cases, All, All-append, ok, bind-eq-ok, ◌≡◌, refl, sym, ap, ◌∙◌, inl, inr, false, [],
  ◌∷◌, ◌++◌, arith,
}
use real_time_cr.Message.Kind
use real_time_cr.ShmQueue.{SpscQueue}
use real_time_cr.Contract.{
  TokenStore, TradeMsgStore, insert, is_unsided, tokens_of-append, tokens_of,
}
use real_time_cr.Writer.Groups.{ConRevTradeDetails}
use real_time_cr.Writer.{Stores, BcastMsg, on_trade, write_data_in_file, count_lots, is_order}
use real_time_cr.Message.{BcastMsg}
use real_time_cr.Writer.Orders.{on_order-Reports}

-- Between messages: the token set is that of the collected trades, each of which has exactly one
-- order id.
pub record IsCollected (tokens : TokenStore) (ms : TradeMsgStore) : Type 0 where
  pub tokens_eq : tokens ≡ tokens_of [] ms
  pub sided : All (λ m. is_unsided m ≡ false) ms

module _ (spsc : SpscQueue ConRevTradeDetails) where
  abbrev pub IsValid : Stores spsc → Type 0
  IsValid s = IsCollected s.token_store s.trade_msg_store

  on_trade-IsValid :
      (m : BcastMsg) (s s' : Stores spsc) → IsValid s → on_trade spsc m s ≡ ok s' → IsValid s'
  unfolding on_trade
  on_trade-IsValid m s s' v h =
      let (td, _, h1) = bind-eq-ok (count_lots spsc m s.token_data_store) _ h in
      elim (Bool-cases (is_unsided m)) [
        | inl u ↦ let e : record s { token_data_store = td } ≡ s' = ground arith in rw (← e) v
        | inr sided ↦
            let e : record s {
              trade_msg_store = s.trade_msg_store ++ (m ∷ []);
              token_store = insert m.token s.token_store;
              token_data_store = td;
            }
                ≡ s' =
              ground arith in
            rw (← e) (record {
              tokens_eq =
                  ap (insert m.token) v.tokens_eq ∙ sym (tokens_of-append [] s.trade_msg_store m);
              sided =
                  All-append (λ x. is_unsided x ≡ false) s.trade_msg_store (m ∷ []) v.sided
                    (sided, tt);
            })
      ]

  -- Every message that is handled without a fault keeps the stores valid: the token set is that of the
  -- collected trades, and each collected trade has exactly one order id.
  pub write_data_in_file-IsValid :
      (m : BcastMsg) (s s' : Stores spsc)
      → IsValid s
      → write_data_in_file spsc m s ≡ ok s'
      → IsValid s'
  unfolding write_data_in_file
  write_data_in_file-IsValid m s s' v h = elim (Bool-cases (is_order spsc m.msg_type)) [
    | inl order ↦
        let (rs, e, _) = on_order-Reports spsc m s s' (rw order at h) in
        rw e (record { tokens_eq = refl; sided = tt })
    | inr other ↦ elim (Bool-cases (m.msg_type == Kind.trade_message)) [
      | inl trade ↦ on_trade-IsValid m s s' v (rw (other, trade) at h)
      | inr rest ↦
          let h1 : ok s ≡ ok s' = rw (other, rest) at h in
          let e : s ≡ s' = ground arith in rw (← e) v
    ]
  ]
