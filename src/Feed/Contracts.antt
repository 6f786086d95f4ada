-- ===== src/Feed/Contracts.antt =====
-- What happens to the contracts while datagrams are read: only the lots traded are counted.
use real_time_cr.Prelude.{
  ◌==◌, Bool-cases, Option-cases, ok, bind-eq-ok, ℕ, ◌≡◌, refl, sym, ap, ◌∙◌, inl, inr, Option,
  none, some, List, arith, subst,
}
use real_time_cr.Writer.{write_data_in_file, on_trade, is_order, count_lots, Stores}
use real_time_cr.Writer.Orders.{on_order-Reports}
use real_time_cr.Contract.{OmsScripInfo, TokenDataStore, find, store, find-store, is_unsided}
use real_time_cr.ShmQueue.{SpscQueue}
use real_time_cr.Writer.Groups.{ConRevTradeDetails}
use real_time_cr.Message.{BcastMsg}
use real_time_cr.Feed.{write_data_in_file1, World, feed_loop}
use real_time_cr.Words.{div32, add64, widen}
use real_time_cr.Message.Kind
use real_time_cr.Feed.Steps.{State}
use real_time_cr.Feed.Kept.{feed_loop-Keeps}
use real_time_cr.Recovery.{World}

-- A contract without its count of lots.
abbrev pub uncounted : Option OmsScripInfo → Option OmsScripInfo
uncounted none = none
uncounted (some o) = some (record o { total_traded = 0 })

abbrev pub SameContracts : TokenDataStore → TokenDataStore → Type 0
SameContracts td td' = (t : ℕ) → uncounted (find td' t) ≡ uncounted (find td t)

store-SameContracts :
    (td : TokenDataStore) (t n : ℕ) (o : OmsScripInfo)
    → find td t ≡ some o
    → SameContracts td (store td t (record o { total_traded = n }))
store-SameContracts td t n o e j = elim (Bool-cases (t == j)) [
  | inl same ↦
      let e1 : t ≡ j = ground arith in
      let here : find td j ≡ some o = ap (find td) (sym e1) ∙ e in
      ground (arith, find-store td t j o (record o { total_traded = n }) e, here)
  | inr other ↦ ground (arith, find-store td t j o (record o { total_traded = n }) e)
]

module _ (spsc : SpscQueue ConRevTradeDetails) where
  pub count_lots-SameContracts :
      (m : BcastMsg) (td td' : TokenDataStore)
      → count_lots spsc m td ≡ ok td'
      → SameContracts td td'
  unfolding count_lots
  count_lots-SameContracts m td td' h = elim (Option-cases (find td m.token)) [
    | inl e ↦ let same : td ≡ td' = ground arith in rw (← same) (λ t. refl)
    | inr (info, e) ↦
        let (lots, _, k) =
          bind-eq-ok (div32 m.trade_qty info.board_lot_qty) _ (rw (count_lots, e) at h) in
        let same : store td m.token
              (record info { total_traded = add64 info.total_traded (widen lots) })
            ≡ td' =
          ground arith in
        subst (SameContracts td) same
          (store-SameContracts td m.token (add64 info.total_traded (widen lots)) info e)
  ]

  write_data_in_file-SameContracts :
      (m : BcastMsg) (s s' : Stores spsc)
      → write_data_in_file spsc m s ≡ ok s'
      → SameContracts s.token_data_store s'.token_data_store
  unfolding write_data_in_file on_trade
  write_data_in_file-SameContracts m s s' h = elim (Bool-cases (is_order spsc m.msg_type)) [
    | inl order ↦ let (rs, e, _) = on_order-Reports spsc m s s' (rw order at h) in rw e (λ t. refl)
    | inr other ↦ elim (Bool-cases (m.msg_type == Kind.trade_message)) [
      | inl trade ↦
          let (td, e, k) =
            bind-eq-ok (count_lots spsc m s.token_data_store) _ (rw (other, trade) at h) in
          let same : td ≡ s'.token_data_store = elim (Bool-cases (is_unsided m)) [
            | inl u ↦ ground arith
            | inr sided ↦ ground arith
          ] in
          subst (SameContracts s.token_data_store) same
            (count_lots-SameContracts m s.token_data_store td e)
      | inr rest ↦
          let h1 : ok s ≡ ok s' = rw (other, rest) at h in
          let e : s ≡ s' = ground arith in rw (← e) (λ t. refl)
    ]
  ]

  -- Whatever datagrams arrive and whatever the recovery server answers, a token has a contract when the loop has
  -- read them exactly if it had one before, and the contract is the same but for the count of the lots.
  pub feed_loop-contracts :
      (garbage : List ℕ) (connection_delay max_packet_count : ℕ) (ds : List (List ℕ))
      (f f' : State spsc garbage connection_delay max_packet_count) (w w' : World (Stores spsc))
      (t : ℕ)
      → feed_loop spsc garbage connection_delay max_packet_count ds f w ≡ ok (some (f', w'))
      → uncounted (find w'.sink.token_data_store t) ≡ uncounted (find w.sink.token_data_store t)
  unfolding write_data_in_file1
  feed_loop-contracts garbage connection_delay max_packet_count ds f f' w w' t h =
      feed_loop-Keeps spsc garbage connection_delay max_packet_count
        (λ s. SameContracts w.sink.token_data_store s.token_data_store)
        (λ m s s' same e j. write_data_in_file-SameContracts m s s' e j ∙ same j) ds f f' w w'
        (λ j. refl) h t
