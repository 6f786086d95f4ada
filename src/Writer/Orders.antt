-- ===== src/Writer/Orders.antt =====
-- What the message behind the trades makes `WriteDataInFile` do.
use real_time_cr.Prelude.{
  ltb, Bool-cases, length, take, length-append, Exec, ok, fault, bind-eq-ok, suc, ◌-◌, ◌≡◌, refl,
  ◌⊎◌, inl, inr, Bool, true, false, List, [], ◌∷◌, ◌++◌, arith, take-nil, take-suc, take-zero,
}
use real_time_cr.ShmQueue.{SpscQueue, ShmQueue1, enqueue}
use real_time_cr.Writer.Groups.{ConRevTradeDetails, handle_groups, no_carried}
use real_time_cr.Writer.{enqueue_all, on_order, Stores}
use real_time_cr.Message.{BcastMsg}
use real_time_cr.ShmQueue.Laws.{to_list, enqueue-to_list}
use real_time_cr.Validate.{validate_trade_msg_records}
use real_time_cr.Contract.{TradeVectorStore}
use real_time_cr.Split.{split_trade}
use real_time_cr.Writer.Reported.{Reports, handle_groups-Reports}
use mathlib.Core.List.{append-nil, append_assoc}

module _ (spsc : SpscQueue ConRevTradeDetails) where
  -- The queue takes the records in order, up to its capacity.
  pub to_list-enqueue_all :
      (rs : List ConRevTradeDetails) (q : ShmQueue1 spsc)
      → to_list spsc (enqueue_all spsc rs q)
        ≡ to_list spsc q ++ take (spsc.capacity - length (to_list spsc q)) rs
  unfolding enqueue_all
  to_list-enqueue_all [] q = rw (take-nil (spsc.capacity - length (to_list spsc q)), append-nil)
  to_list-enqueue_all (r ∷ rs) q =
      let n = spsc.capacity - length (to_list spsc q) in
      let q' = (enqueue spsc r q).0 in
      let (held, _, _) = enqueue-to_list spsc r q in
      let ih = to_list-enqueue_all rs q' in
      elim (Bool-cases (ltb (length (to_list spsc q)) spsc.capacity)) [
        | inl room ↦
            let now : to_list spsc q' ≡ to_list spsc q ++ (r ∷ []) = rw room at held in
            let k = spsc.capacity - length (to_list spsc q ++ (r ∷ [])) in
            let more : n ≡ suc k = ground (arith, length-append (to_list spsc q) (r ∷ [])) in
            rw (ih, now, take-suc n k r rs more)
              (append_assoc (to_list spsc q) (r ∷ []) (take k rs))
        | inr full ↦
            let now : to_list spsc q' ≡ to_list spsc q = rw full at held in
            let none_left : n ≡ 0 = ground arith in
            rw (ih, now, take-zero n rs none_left, take-zero n (r ∷ rs) none_left)
      ]

  -- The effect of an order on the stores, if there is no fault: the collected trades are gone, the contracts are as they
  -- were, and the queue gets the records of the groups, none if the trades do not validate.
  pub on_order-Reports :
      (m : BcastMsg) (s s' : Stores spsc)
      → on_order spsc m s ≡ ok s'
      → (rs : List ConRevTradeDetails) × (s' ≡ record s {
        trade_msg_store = [];
        token_store = [];
        con_rev_q = enqueue_all spsc rs s.con_rev_q;
      })
        × (((validate_trade_msg_records s.token_data_store s.token_store s.trade_msg_store
                ≡ ok false)
              × (rs ≡ []))
            ⊎ ((gs : TradeVectorStore) × (validate_trade_msg_records s.token_data_store
                    s.token_store s.trade_msg_store
                  ≡ ok true)
                × (split_trade s.token_data_store s.token_store s.trade_msg_store ≡ ok gs)
                × Reports s.token_data_store m.strem_id gs rs))
  unfolding on_order enqueue_all
  on_order-Reports m s s' h =
      go (validate_trade_msg_records s.token_data_store s.token_store s.trade_msg_store) refl
    where
      go :
          (v : Exec Bool)
          → validate_trade_msg_records s.token_data_store s.token_store s.trade_msg_store ≡ v
          → (rs : List ConRevTradeDetails) × (s' ≡ record s {
            trade_msg_store = [];
            token_store = [];
            con_rev_q = enqueue_all spsc rs s.con_rev_q;
          })
            × (((validate_trade_msg_records s.token_data_store s.token_store s.trade_msg_store
                    ≡ ok false)
                  × (rs ≡ []))
                ⊎ ((gs : TradeVectorStore) × (validate_trade_msg_records s.token_data_store
                        s.token_store s.trade_msg_store
                      ≡ ok true)
                    × (split_trade s.token_data_store s.token_store s.trade_msg_store ≡ ok gs)
                    × Reports s.token_data_store m.strem_id gs rs))
      go (fault f) e = absurd (ground arith)
      go (ok false) e = ([], ground arith, inl (e, refl))
      go (ok true) e =
          let (gs, split, h1) =
            bind-eq-ok (split_trade s.token_data_store s.token_store s.trade_msg_store) _
              (rw e at h) in
          let (rs, found, h2) =
            bind-eq-ok (handle_groups s.token_data_store m.strem_id gs no_carried) _ h1 in
          (
            rs,
            ground arith,
            inr (gs, e, split, handle_groups-Reports _ m.strem_id gs no_carried rs found),
          )
