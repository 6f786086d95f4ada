-- ===== src/Message.antt =====
-- nsetbt_mcast_msg.h: the packed structures of the multicast feed. The largest member of the union
-- `BcastMsg` is `TRD_MSG`, so the record of its fields holds all the bytes of the union; the other
-- members are read as the fields that they share with it.
pub mod Kind
pub mod Size
use real_time_cr.Prelude.{take, drop, ℕ, ◌+◌, ◌*◌, ◌%◌, List, [], ◌∷◌, ◌++◌}

abbrev pub request_success : ℕ
request_success = b'S'

abbrev pub request_error : ℕ
request_error = b'E'

abbrev pub buy_indicator_char : ℕ
buy_indicator_char = b'B'

abbrev pub sell_indicator_char : ℕ
sell_indicator_char = b'S'

-- `BcastMsg`, by the fields of `TRD_MSG`. Order ids are the bit patterns of the doubles.
pub record BcastMsg : Type 0 where
  pub msg_len : ℕ
  pub strem_id : ℕ
  pub seq_no : ℕ
  pub msg_type : ℕ
  pub timestamp : ℕ
  pub buy_ord_id : ℕ
  pub sell_ord_id : ℕ
  pub token : ℕ
  pub trade_price : ℕ
  pub trade_qty : ℕ

-- A little-endian integer.
unfoldable pub number : List ℕ → ℕ
number [] = 0
number (b ∷ bs) = b % 256 + 256 * number bs

abbrev pub field : ℕ → ℕ → List ℕ → ℕ
field offset width bs = number (take width (drop offset bs))

-- The bytes of a union, read.
unfoldable pub read_bcast_msg : List ℕ → BcastMsg
unfolding number
read_bcast_msg bs = record {
  msg_len = field 0 2 bs;
  strem_id = field 2 2 bs;
  seq_no = field 4 4 bs;
  msg_type = field 8 1 bs;
  timestamp = field 9 8 bs;
  buy_ord_id = field 17 8 bs;
  sell_ord_id = field 25 8 bs;
  token = field 33 4 bs;
  trade_price = field 37 4 bs;
  trade_qty = field 41 4 bs;
}

-- A member of `size` bytes assigned to the union; the bytes behind it stay.
abbrev pub assign : ℕ → List ℕ → List ℕ → List ℕ
assign size src union = take size src ++ drop size union
