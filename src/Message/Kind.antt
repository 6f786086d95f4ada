-- ===== src/Message/Kind.antt =====
-- nsetbt_mcast_msg.h: the characters that tell the message types apart.
use Prim.Native.Nat.{ℕ}

abbrev pub begin_of_master : ℕ
begin_of_master = b'B'

abbrev pub contract_information : ℕ
contract_information = b'C'

abbrev pub spread_information : ℕ
spread_information = b'P'

abbrev pub end_of_master : ℕ
end_of_master = b'E'

abbrev pub new_order : ℕ
new_order = b'N'

abbrev pub order_modification : ℕ
order_modification = b'M'

abbrev pub order_cancellation : ℕ
order_cancellation = b'X'

abbrev pub trade_message : ℕ
trade_message = b'T'

abbrev pub spread_new_order : ℕ
spread_new_order = b'G'

abbrev pub spread_order_modification : ℕ
spread_order_modification = b'H'

abbrev pub spread_order_cancellation : ℕ
spread_order_cancellation = b'J'

abbrev pub spread_trade_message : ℕ
spread_trade_message = b'K'

abbrev pub recovery_request : ℕ
recovery_request = b'R'

abbrev pub recovery_response : ℕ
recovery_response = b'Y'
