-- ===== src/Feed/Detection.antt =====
-- Three trades of a conversion or reversal, and the message behind them, one after the other.
use real_time_cr.Prelude.{
  ◌==◌, length, All, Exec, ok, ◌>>=◌, ℕ, ◌%◌, ◌/◌, ◌^◌, ◌<◌, ◌≡◌, refl, sym, ap, ◌∙◌, true, false,
  some, List, [], ◌∷◌, ◌++◌, arith,
}
use real_time_cr.Contract.{
  TokenDataStore, TradeMsgStore, OmsScripInfo, Leg, type_of, has_leg, leg_qty, find, store,
  tokens_of, is_unsided,
}
use real_time_cr.Message.{BcastMsg}
use real_time_cr.Message.Kind
use real_time_cr.Words.{div32-positive, add64, widen}
use real_time_cr.ConRev.{is_con_rev, no_sides}
use real_time_cr.ConRev.Rounds.{mark_known}
use real_time_cr.ConRev.Complete.{Agrees}
use real_time_cr.Feed.Contracts.{SameContracts, count_lots-SameContracts}
use real_time_cr.Feed.Recounted.{
  leg_qty-same, has_leg-same, mark_known-same, All-Agrees-same, All-HasLot-same,
}
use real_time_cr.ShmQueue.{SpscQueue, enqueue}
use real_time_cr.Writer.{Stores, cleared, is_order, on_trade, count_lots, write_data_in_file}
use real_time_cr.Writer.Detection.{HasLot, IsPositive, on_order_detects}
use real_time_cr.Writer.Groups.{ConRevTradeDetails}
use real_time_cr.Writer.Report.{IsReport}
use mathlib.Core.List.{append-nil, append_assoc}

module _ (spsc : SpscQueue ConRevTradeDetails) where
  -- The messages are handled one after the other.
  unfoldable pub write_all : List BcastMsg → Stores spsc → Exec (Stores spsc)
  write_all [] s = ok s
  write_all (m ∷ ms) s = write_data_in_file spsc m s >>= write_all ms

  -- A trade of a quantity that is not negative.
  pub record IsTrade (m : BcastMsg) : Type 0 where
    pub kind : m.msg_type ≡ Kind.trade_message
    pub small : m.trade_qty < 2 ^ 31

  -- The stores with more trades and other contracts.
  abbrev with_trades : TradeMsgStore → TokenDataStore → Stores spsc → Stores spsc
  with_trades ms td s = record s {
    trade_msg_store = s.trade_msg_store ++ ms;
    token_store = tokens_of s.token_store ms;
    token_data_store = td;
  }

  count_lots_runs :
      (m : BcastMsg) (td : TokenDataStore) (i : OmsScripInfo)
      → find td m.token ≡ some i
      → m.trade_qty < 2 ^ 31
      → IsPositive i.board_lot_qty
      → (td' : TokenDataStore) × (count_lots spsc m td ≡ ok td')
  unfolding count_lots
  count_lots_runs m td i known small lot =
      let lots = div32-positive m.trade_qty i.board_lot_qty small lot.0 lot.1 in
      (
        store td m.token (record i {
          total_traded = add64 i.total_traded (widen (m.trade_qty / i.board_lot_qty));
        }),
        ground (arith, known, lots),
      )

  module _ (expiry strike : ℕ) where
    collect_one :
        (m : BcastMsg) (s : Stores spsc)
        → IsTrade m
        → Agrees s.token_data_store expiry strike strike m
        → HasLot s.token_data_store m
        → (td : TokenDataStore) × SameContracts s.token_data_store td
          × (write_data_in_file spsc m s ≡ ok (with_trades (m ∷ []) td s))
    unfolding write_data_in_file on_trade
    collect_one m s t a lot =
        let (td, run) =
          count_lots_runs m s.token_data_store a.info a.known t.small (lot a.info a.known) in
        let order : is_order spsc m.msg_type ≡ false = rw t.kind refl in
        let trade : (m.msg_type == Kind.trade_message) ≡ true = rw t.kind refl in
        (
          td,
          count_lots-SameContracts spsc m s.token_data_store td run,
          rw (order, trade, run, a.sided) refl,
        )

    collect :
        (ms : TradeMsgStore) (s : Stores spsc)
        → All IsTrade ms
        → All (Agrees s.token_data_store expiry strike strike) ms
        → All (HasLot s.token_data_store) ms
        → (td : TokenDataStore) × SameContracts s.token_data_store td
          × ((rest : List BcastMsg)
              → write_all (ms ++ rest) s ≡ write_all rest (with_trades ms td s))
    unfolding write_all
    collect [] s ts agree lots = (
      s.token_data_store,
      λ t. refl,
      λ rest.
          ap (λ x. write_all rest (record s { trade_msg_store = x }))
            (sym (append-nil s.trade_msg_store)),
    )
    collect (m ∷ ms) s (t, ts) (a, agree) (lot, lots) =
        let (td1, same1, run1) = collect_one m s t a lot in
        let s1 = with_trades (m ∷ []) td1 s in
        let (td2, same2, run2) =
          collect ms s1 ts (All-Agrees-same s.token_data_store td1 same1 expiry strike ms agree)
            (All-HasLot-same s.token_data_store td1 same1 ms lots) in
        let there = append_assoc s.trade_msg_store (m ∷ []) ms in
        (
          td2,
          λ j. same2 j ∙ same1 j,
          λ rest.
              ap (λ r. r >>= write_all (ms ++ rest)) run1
              ∙ run2 rest
              ∙ ap
                  (λ x.
                    write_all rest (record (with_trades (m ∷ ms) td2 s) { trade_msg_store = x }))
                  there,
        )

  all_sided :
      (expiry strike : ℕ) (td : TokenDataStore) (ms : TradeMsgStore)
      → All (Agrees td expiry strike strike) ms
      → All (λ x. is_unsided x ≡ false) ms
  all_sided expiry strike td [] agree = tt
  all_sided expiry strike td (x ∷ ms) (a, agree) = (a.sided, all_sided expiry strike td ms agree)

  -- The loop of `WriteDataInFile` over three trades and the message behind them, from stores without
  -- trades. The trades are one-sided, of quantities that are not negative, in known contracts with
  -- positive board lots: a future, a call and a put of one expiry date, the options of one strike
  -- price, in equal positive quantities and with opposed sides. Then no call faults, the record that is
  -- queued reports the three trades, and the stores are without trades again, the contracts as
  -- they were but for the count of the lots.
  pub write_all_detects :
      (expiry strike : ℕ) (ms : TradeMsgStore) (m : BcastMsg) (s : Stores spsc)
      → is_order spsc m.msg_type ≡ true
      → length ms ≡ 3
      → All IsTrade ms
      → All (Agrees s.token_data_store expiry strike strike) ms
      → All (HasLot s.token_data_store) ms
      → ((g : Leg) → has_leg s.token_data_store (type_of g) ms ≡ true)
      → IsPositive (leg_qty s.token_data_store 1 ms % 2 ^ 32)
      → leg_qty s.token_data_store 1 ms % 2 ^ 32 ≡ leg_qty s.token_data_store 2 ms % 2 ^ 32
      → leg_qty s.token_data_store 2 ms % 2 ^ 32 ≡ leg_qty s.token_data_store 3 ms % 2 ^ 32
      → is_con_rev (mark_known s.token_data_store ms no_sides) ≡ true
      → (r : ConRevTradeDetails) × (td : TokenDataStore) × SameContracts s.token_data_store td
        × IsReport td m.strem_id ms r
        × (write_all (ms ++ (m ∷ [])) (cleared spsc s)
            ≡ ok (record (cleared spsc s) {
              token_data_store = td;
              con_rev_q = (enqueue spsc r s.con_rev_q).0;
            }))
  unfolding write_all write_data_in_file
  write_all_detects expiry strike ms m s order three trades agree lots legs p fc cp opposed =
      let old = s.token_data_store in
      let (td, same, collected) = collect expiry strike ms (cleared spsc s) trades agree lots in
      let s1 = with_trades ms td (cleared spsc s) in
      let qty = λ (k : ℕ). leg_qty-same old td same k ms in
      let (r, report, run) =
        on_order_detects spsc m s1 expiry strike
          (record { tokens_eq = refl; sided = all_sided expiry strike old ms agree }) three
          (All-Agrees-same old td same expiry strike ms agree)
          (λ g. has_leg-same old td same (type_of g) ms ∙ legs g) (rw (qty 1, qty 2) fc)
          (rw (qty 2, qty 3) cp) (ap is_con_rev (mark_known-same old td same ms no_sides) ∙ opposed)
          (All-HasLot-same old td same ms lots) (rw (qty 1) p) in
      (r, td, same, report, collected (m ∷ []) ∙ rw (order, run) refl)
