-- ===== src/Tests/Datagrams.antt =====
-- Datagrams of the feed.
use real_time_cr.Prelude.{ok, ℕ, ◌≤◌, ◌≡◌, refl, some, List, [], ◌∷◌, ◌++◌}
use real_time_cr.Feed.{feed_loop, Feed, on_datagram, on_message, write_data_in_file1}
use real_time_cr.Writer.Collected.{IsCollected}
use real_time_cr.Recovery.{World}
use real_time_cr.ShmQueue.{SpscQueue}
use real_time_cr.Tests.Streams.{header, zeros}
use real_time_cr.Message.{BcastMsg, read_bcast_msg}
use real_time_cr.Writer.Groups.{ConRevTradeDetails}
use real_time_cr.Writer.{Stores, write_data_in_file, on_trade, count_lots}
use real_time_cr.Words.{order32, double_to_int64, div32}
use real_time_cr.Tests.Data.{contracts, contract, one_id, queue_of_two}
use real_time_cr.Feed.Order.{feed_loop_order}
use real_time_cr.Feed.Invariant.{feed_loop-IsValid}
use real_time_cr.Contract.{find, store, insert}
use real_time_cr.Feed.Contracts.{uncounted, feed_loop-contracts}
use real_time_cr.Message.Kind

abbrev pub records : SpscQueue ConRevTradeDetails
records = queue_of_two ConRevTradeDetails

abbrev pub stores : Stores records
stores = record {
  trade_msg_store = [];
  token_store = [];
  token_data_store = contracts;
  con_rev_q = record { size = 0; ptr_q = [] };
}

abbrev idle : World (Stores records)
idle = record { recovery_sock = 0; last_recovery_time = 0; attempts = []; log = []; sink = stores }

-- A sale of 100 of the future at 105: the seller's order id is 1.0.
abbrev pub sale : ℕ → List ℕ
sale seq =
    header Kind.trade_message seq
    ++ zeros 8
    ++ zeros 8
    ++ (0 ∷ 0 ∷ 0 ∷ 0 ∷ 0 ∷ 0 ∷ 0xf0 ∷ 0x3f ∷ [])
    ++ (11 ∷ 0 ∷ 0 ∷ 0 ∷ [])
    ++ (105 ∷ 0 ∷ 0 ∷ 0 ∷ [])
    ++ (100 ∷ 0 ∷ 0 ∷ 0 ∷ [])

abbrev pub sold : BcastMsg
sold = record {
  msg_len = 0;
  strem_id = 0;
  seq_no = 1;
  msg_type = Kind.trade_message;
  timestamp = 0;
  buy_ord_id = 0;
  sell_ord_id = one_id;
  token = 11;
  trade_price = 105;
  trade_qty = 100;
}

abbrev before : Feed records [] 500 10
before = record { union = []; last_seq_no = 0 }

abbrev after : Feed records [] 500 10
after = record { union = sale 1; last_seq_no = 1 }

abbrev traded : World (Stores records)
traded = record idle {
  sink = record stores {
    trade_msg_store = sold ∷ [];
    token_store = 11 ∷ [];
    token_data_store =
        (11, record (contract 11 1) { total_traded = 2 })
        ∷ (12, contract 12 2)
        ∷ (13, contract 13 3)
        ∷ [];
  };
}

-- The message is written once, though it comes twice.
feed_loop_runs :
    feed_loop records [] 500 10 (sale 1 ∷ sale 1 ∷ []) before idle ≡ ok (some (after, traded))
unfolding feed_loop on_datagram on_message write_data_in_file1 write_data_in_file on_trade
    count_lots read_bcast_msg find store insert double_to_int64 div32
feed_loop_runs = refl

nothing-IsCollected : IsCollected [] []
nothing-IsCollected = record { tokens_eq = refl; sided = tt }

feed_loop-IsValid_example : IsCollected (11 ∷ []) (sold ∷ [])
feed_loop-IsValid_example =
    feed_loop-IsValid records [] 500 10 (sale 1 ∷ sale 1 ∷ []) before after idle traded
      nothing-IsCollected feed_loop_runs

feed_loop_order_example : order32 0 ≤ order32 1
feed_loop_order_example =
    feed_loop_order records [] 500 10 (sale 1 ∷ sale 1 ∷ []) before after idle traded feed_loop_runs

feed_loop-contracts_example :
    uncounted (find traded.sink.token_data_store 11)
    ≡ some (record (contract 11 1) { total_traded = 0 })
unfolding find
feed_loop-contracts_example =
    feed_loop-contracts records [] 500 10 (sale 1 ∷ sale 1 ∷ []) before after idle traded 11
      feed_loop_runs
