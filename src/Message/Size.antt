-- ===== src/Message/Size.antt =====
-- nsetbt_mcast_msg.h: `sizeof` of the packed structures.
use Prim.Native.Nat.{ℕ}

abbrev pub msg_header : ℕ
msg_header = 9

abbrev pub mst_data_header : ℕ
mst_data_header = 13

abbrev pub contract_info : ℕ
contract_info = 41

abbrev pub sprd_contract_info : ℕ
sprd_contract_info = 19

abbrev pub mst_data_trailer : ℕ
mst_data_trailer = 13

abbrev pub generic_ord_msg : ℕ
generic_ord_msg = 38

abbrev pub trd_msg : ℕ
trd_msg = 45

abbrev pub recovery_req : ℕ
recovery_req = 11

abbrev pub recovery_resp : ℕ
recovery_resp = 10

abbrev pub bcast_msg : ℕ
bcast_msg = 45
