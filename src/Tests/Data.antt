-- ===== src/Tests/Data.antt =====
-- Contracts, trades and a queue for the tests.
use real_time_cr.Prelude.{
  ◌==◌, if◌then◌else◌, length, ℕ, ◌+◌, ◌≤◌, ◌<◌, ◌≡◌, refl, ◌↔◌, Bool, true, false, Option, none,
  some, List, [], ◌∷◌, ◌++◌, arith,
}
use real_time_cr.Message.Kind
use real_time_cr.Contract.{TradeMsgStore, TokenDataStore, OmsScripInfo, TokenStore}
use real_time_cr.Message.{BcastMsg}
use real_time_cr.ShmQueue.{SpscQueue}

-- The order id 1.0 as a double.
abbrev pub one_id : ℕ
one_id = 0x3ff0_0000_0000_0000

abbrev pub contract : ℕ → ℕ → OmsScripInfo
contract token type = record {
  expiry_date = 20;
  strike_price = if type == 1 then 0 else 100;
  token = token;
  board_lot_qty = 50;
  min_lot_qty = 50;
  tick_size = 5;
  custom_instrument_type = type;
  symbol = b'N' ∷ b'Y' ∷ [];
  series = [];
  symbol_name = [];
  total_traded = 0;
}

-- A future, a call and a put.
abbrev pub contracts : TokenDataStore
contracts = (11, contract 11 1) ∷ (12, contract 12 2) ∷ (13, contract 13 3) ∷ []

abbrev pub message : ℕ → ℕ → ℕ → ℕ → ℕ → ℕ → BcastMsg
message kind seq token buy sell price = record {
  msg_len = 45;
  strem_id = 3;
  seq_no = seq;
  msg_type = kind;
  timestamp = 1000 + seq;
  buy_ord_id = buy;
  sell_ord_id = sell;
  token = token;
  trade_price = price;
  trade_qty = 100;
}

abbrev pub fut_trade : BcastMsg
fut_trade = message Kind.trade_message 1 11 0 one_id 105

abbrev pub call_trade : BcastMsg
call_trade = message Kind.trade_message 2 12 one_id 0 15

abbrev pub put_trade : BcastMsg
put_trade = message Kind.trade_message 3 13 0 one_id 8

abbrev pub conversion : TradeMsgStore
conversion = fut_trade ∷ call_trade ∷ put_trade ∷ []

abbrev pub stranger : BcastMsg
stranger = message Kind.trade_message 4 99 0 one_id 8

abbrev pub order_message : BcastMsg
order_message = message Kind.new_order 5 11 one_id 0 100

abbrev pub three_tokens : TokenStore
three_tokens = 11 ∷ 12 ∷ 13 ∷ []

-- A queue with room for two.
abbrev push_two : {T : Type 0} → List T → T → List T × Bool
push_two [] x = (x ∷ [], true)
push_two (y ∷ []) x = (y ∷ x ∷ [], true)
push_two (y ∷ z ∷ ys) x = (y ∷ z ∷ ys, false)

abbrev pop_two : {T : Type 0} → List T → Option (T × List T)
pop_two [] = none
pop_two (x ∷ xs) = some (x, xs)

abbrev is_nil : {T : Type 0} → List T → Bool
is_nil [] = true
is_nil (x ∷ xs) = false

abbrev pub queue_of_two : (T : Type 0) → SpscQueue T
queue_of_two T = record {
  Ring = List T;
  capacity = 2;
  contents = λ r. r;
  ring_push = push_two;
  ring_pop = pop_two;
  ring_empty = is_nil;
  push_room = push_room;
  push_full = push_full;
  pop_none = λ r e. rw e refl;
  pop_some = λ r x xs e. (xs, rw e refl, refl);
  empty_iff = empty_iff;
}
  where
    push_room :
        (r : List T) (x : T)
        → length r < 2
        → ((push_two r x).0 ≡ r ++ (x ∷ [])) × ((push_two r x).1 ≡ true)
    push_room [] x h = (refl, refl)
    push_room (y ∷ []) x h = (refl, refl)
    push_room (y ∷ z ∷ ys) x h = absurd (omega arith)

    push_full :
        (r : List T) (x : T) → 2 ≤ length r → ((push_two r x).0 ≡ r) × ((push_two r x).1 ≡ false)
    push_full [] x h = absurd (omega arith)
    push_full (y ∷ []) x h = absurd (omega arith)
    push_full (y ∷ z ∷ ys) x h = (refl, refl)

    empty_iff : (r : List T) → (is_nil r ≡ true) ↔ (r ≡ [])
    empty_iff [] = (λ _. refl, λ _. refl)
    empty_iff (x ∷ xs) = (λ e. cc, λ e. cc)
