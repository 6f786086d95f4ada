-- ===== src/Writer.antt =====
-- main.cpp, `WriteDataInFile`: collects trades, and looks for conversions and reversals among them
-- when the next other message comes.
pub mod Groups
pub mod Totals
pub mod Report
pub mod Reported
pub mod Orders
pub mod Faults
pub mod Collected
pub mod Detection
use real_time_cr.Prelude.{
  ◌==◌, if◌then◌else◌, Exec, ok, ◌>>=◌, ℕ, Bool, not, ◌||◌, none, some, List, [], ◌∷◌, ◌++◌,
}
use real_time_cr.Message.Kind
use real_time_cr.Contract.{
  TokenDataStore, find, TradeMsgStore, TokenStore, is_unsided, store, insert,
}
use real_time_cr.Message.{BcastMsg}
use real_time_cr.Words.{widen, add64, div32}
use real_time_cr.ShmQueue.{SpscQueue, ShmQueue1, enqueue}
use real_time_cr.Validate.{validate_trade_msg_records}
use real_time_cr.Split.{split_trade}
use real_time_cr.Writer.Groups.{ConRevTradeDetails, handle_groups, no_carried}

-- `for(...) pcConRevQ->enqueue(...)`: the result of `enqueue` is not looked at.
module _ (spsc : SpscQueue ConRevTradeDetails) where
  unfoldable pub enqueue_all : List ConRevTradeDetails → ShmQueue1 spsc → ShmQueue1 spsc
  enqueue_all [] q = q
  enqueue_all (x ∷ xs) q = enqueue_all xs (enqueue spsc x q).0

  -- The three containers and the queue that `WriteDataInFile` takes by reference.
  pub record Stores : Type 0 where
    pub trade_msg_store : TradeMsgStore
    pub token_store : TokenStore
    pub token_data_store : TokenDataStore
    pub con_rev_q : ShmQueue1 spsc

  abbrev pub cleared : Stores → Stores
  cleared s = record s { trade_msg_store = []; token_store = [] }

  -- The cases of orders and of spread trades.
  unfoldable pub on_order : BcastMsg → Stores → Exec Stores
  on_order m s = do
    valid ← validate_trade_msg_records s.token_data_store s.token_store s.trade_msg_store
    if not valid then ok (cleared s) else (do
      groups ← split_trade s.token_data_store s.token_store s.trade_msg_store
      found ← handle_groups s.token_data_store m.strem_id groups no_carried
      ok (record (cleared s) { con_rev_q = enqueue_all found s.con_rev_q }))

  -- `nTotalTraded += nTradeQty / nBoardLotQty`, through the pointer in the map.
  unfoldable pub count_lots : BcastMsg → TokenDataStore → Exec TokenDataStore
  count_lots m td = elim (find td m.token) [
    | none ↦ ok td
    | some info ↦ div32 m.trade_qty info.board_lot_qty >>= λ lots.
        ok (store td m.token (record info { total_traded = add64 info.total_traded (widen lots) }))
  ]

  -- The case of trades.
  unfoldable pub on_trade : BcastMsg → Stores → Exec Stores
  unfolding count_lots
  on_trade m s = do
    td ← count_lots m s.token_data_store
    let s1 = record s { token_data_store = td }
    ok (
        if is_unsided m then s1 else record s1 {
          trade_msg_store = s.trade_msg_store ++ (m ∷ []);
          token_store = insert m.token s.token_store;
        })

  abbrev pub is_order : ℕ → Bool
  is_order kind =
      kind == Kind.new_order
      || kind == Kind.order_modification
      || kind == Kind.order_cancellation
      || kind == Kind.spread_new_order
      || kind == Kind.spread_order_modification
      || kind == Kind.spread_order_cancellation
      || kind == Kind.spread_trade_message

  -- It always returns `true`.
  unfoldable pub write_data_in_file : BcastMsg → Stores → Exec Stores
  write_data_in_file m s =
      if is_order m.msg_type
      then on_order m s
      else if m.msg_type == Kind.trade_message
      then on_trade m s
      else ok s
