-- ===== src/Tests/Queues.antt =====
-- The queue, and what the writer puts on it.
use real_time_cr.Prelude.{
  All, null_pointer, division_by_zero, ok, fault, ℕ, ◌<◌, ◌≡◌, refl, ◌↔◌, ◌⊎◌, true, false, List,
  [], ◌∷◌, arith,
}
use real_time_cr.ShmQueue.Laws.{to_list, IsCounted, size_drifts}
use real_time_cr.Writer.Groups.{Carried, ConRevTradeDetails, handle_groups, no_carried}
use real_time_cr.Writer.{on_order, Stores, enqueue_all, write_data_in_file}
use real_time_cr.ShmQueue.{ShmQueue1, SpscQueue, enqueue, dequeue}
use real_time_cr.ConRev.{is_validate_con_rev}
use real_time_cr.Contract.{TradeMsgStore, find, insert, TradeVectorStore, OmsScripInfo, IsKnown}
use real_time_cr.Writer.Reported.{Reports}
use real_time_cr.Tests.Data.{
  three_tokens, queue_of_two, contracts, conversion, order_message, stranger, contract,
}
use real_time_cr.Validate.{validate_trade_msg_records}
use real_time_cr.Split.{split_trade}
use real_time_cr.Words.{double_to_int64, div32}
use real_time_cr.Writer.Orders.{on_order-Reports}
use real_time_cr.Validate.OnePass.{all_known}
use real_time_cr.Writer.Collected.{IsCollected, write_data_in_file-IsValid}
use real_time_cr.Writer.Faults.{on_order-fault, on_order_unknown}

abbrev pub records : SpscQueue ConRevTradeDetails
records = queue_of_two ConRevTradeDetails

abbrev numbers : SpscQueue ℕ
numbers = queue_of_two ℕ

abbrev pub nothing : ShmQueue1 records
nothing = record { size = 0; ptr_q = [] }

abbrev two_held : ShmQueue1 numbers
two_held = record { size = 2; ptr_q = 7 ∷ 8 ∷ [] }

size_drifts_example :
    (IsCounted numbers (enqueue numbers 9 two_held).0 ↔ 2 < 2)
    × (IsCounted numbers (dequeue numbers two_held).0 ↔ ¬ (to_list numbers two_held ≡ []))
size_drifts_example = size_drifts numbers 9 two_held refl (omega arith)

abbrev collected : TradeMsgStore → Stores records
collected ms = record {
  trade_msg_store = ms;
  token_store = three_tokens;
  token_data_store = contracts;
  con_rev_q = record { size = 0; ptr_q = [] };
}

abbrev pub empty : Stores records
empty = record (collected []) { token_store = [] }

-- The record that the conversion gives: two lots, at 105 - (15 - 8 + 100) where the future was bought.
abbrev report : ConRevTradeDetails
report = record {
  timestamp = 1003;
  total_trade_lot = 2;
  expiray_date = 20;
  spread = 2;
  strike_price = 100;
  exchange_sequence_no = 3;
  stream_id = 3;
  strategy_indentifier = 1;
  symbol = b'N' ∷ b'Y' ∷ [];
}

abbrev after : Carried
after = record { last_seq_no = 3; timestamp = 1003; expiry_date1 = 20 }

handle_groups_runs :
    handle_groups contracts 3 (conversion ∷ conversion ∷ []) no_carried ≡ ok (report ∷ report ∷ [])
unfolding handle_groups is_validate_con_rev find double_to_int64 div32
handle_groups_runs = refl

abbrev reported : Stores records
reported = record {
  trade_msg_store = [];
  token_store = [];
  token_data_store = contracts;
  con_rev_q = record { size = 1; ptr_q = report ∷ [] };
}

on_order_runs : on_order records order_message (collected conversion) ≡ ok reported
unfolding on_order validate_trade_msg_records split_trade handle_groups enqueue_all enqueue
    is_validate_con_rev find double_to_int64 div32
on_order_runs = refl

on_order-Reports_example :
    (rs : List ConRevTradeDetails) × (reported ≡ record (collected conversion) {
      trade_msg_store = [];
      token_store = [];
      con_rev_q = enqueue_all records rs nothing;
    })
    × (((validate_trade_msg_records contracts three_tokens conversion ≡ ok false) × (rs ≡ []))
        ⊎ ((gs : TradeVectorStore) × (validate_trade_msg_records contracts three_tokens conversion
              ≡ ok true)
            × (split_trade contracts three_tokens conversion ≡ ok gs)
            × Reports contracts 3 gs rs))
on_order-Reports_example =
    on_order-Reports records order_message (collected conversion) reported on_order_runs

-- The stores after the three trades.
conversion-IsCollected : IsCollected three_tokens conversion
unfolding insert double_to_int64
conversion-IsCollected = record { tokens_eq = refl; sided = (refl, (refl, (refl, tt))) }

write_data_in_file_runs :
    write_data_in_file records order_message (collected conversion) ≡ ok reported
unfolding write_data_in_file
write_data_in_file_runs = on_order_runs

write_data_in_file-IsValid_example : IsCollected [] []
write_data_in_file-IsValid_example =
    write_data_in_file-IsValid records order_message (collected conversion) reported
      conversion-IsCollected write_data_in_file_runs

-- Contracts without a board lot.
abbrev lotless : ℕ → ℕ → OmsScripInfo
lotless token type = record (contract token type) { board_lot_qty = 0 }

abbrev lotless_stores : Stores records
lotless_stores = record (collected conversion) {
  token_data_store = (11, lotless 11 1) ∷ (12, lotless 12 2) ∷ (13, lotless 13 3) ∷ [];
}

lotless-IsKnown : All (IsKnown lotless_stores.token_data_store) conversion
unfolding find
lotless-IsKnown = ((lotless 11 1, refl), ((lotless 12 2, refl), ((lotless 13 3, refl), tt)))

lotless_runs : on_order records order_message lotless_stores ≡ fault division_by_zero
unfolding on_order validate_trade_msg_records split_trade handle_groups enqueue_all enqueue
    is_validate_con_rev find double_to_int64 div32
lotless_runs = refl

on_order-fault_example : division_by_zero ≡ division_by_zero
on_order-fault_example =
    on_order-fault records order_message lotless_stores division_by_zero lotless-IsKnown
      lotless_runs

stranger_unknown : all_known contracts (stranger ∷ conversion) ≡ false
unfolding find
stranger_unknown = refl

on_order_unknown_example :
    on_order records order_message (collected (stranger ∷ conversion)) ≡ fault null_pointer
on_order_unknown_example =
    on_order_unknown records order_message (collected (stranger ∷ conversion)) (omega arith)
      stranger_unknown
