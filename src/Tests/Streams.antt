-- ===== src/Tests/Streams.antt =====
-- The byte stream of the recovery server.
use real_time_cr.Prelude.{
  length, overlapping_memcpy, fault, Exec, ok, ℕ, zero, suc, ◌≤◌, ◌≡◌, refl, inl, none, some, List,
  [], ◌∷◌, ◌++◌, arith,
}
use real_time_cr.Recovery.Packets.{
  get_packet_loop, Reader, get_packet_from_message, read_packets, moved, move_to_front, kept,
  turn_on,
}
use real_time_cr.Recovery.Chunks.{get_packet_from_message-kept, get_packet_from_message-error}
use real_time_cr.Recovery.Answer.{IsMessage, IsResponse, size_of}
use real_time_cr.Recovery.Overlaps.{get_packet_from_message-overlaps}
use real_time_cr.Recovery.Parsing.{IsStuck, get_packet_loop-stuck}
use real_time_cr.Message.{BcastMsg, read_bcast_msg}
use real_time_cr.Message.Kind

abbrev pub noted : BcastMsg → List ℕ → Exec (List ℕ)
noted m seqs = ok (seqs ++ (m.seq_no ∷ []))

abbrev blank : Reader (List ℕ)
blank = record { union = []; last_seq_no = 0; count = 0; sink = [] }

-- A message of this type and sequence number: the header and a body of zeros.
abbrev pub zeros : ℕ → List ℕ
zeros zero = []
zeros (suc n) = 0 ∷ zeros n

abbrev pub header : ℕ → ℕ → List ℕ
header kind seq = 0 ∷ 0 ∷ 0 ∷ 0 ∷ seq ∷ 0 ∷ 0 ∷ 0 ∷ kind ∷ []

abbrev pub trade_bytes : ℕ → List ℕ
trade_bytes seq = header Kind.trade_message seq ++ zeros 36

abbrev garbled : List ℕ
garbled = header b'?' 1

garbled-IsStuck : IsStuck garbled
garbled-IsStuck = inl (ground arith)

get_packet_loop-stuck_example : get_packet_loop noted 1000 garbled blank ≡ ok none
get_packet_loop-stuck_example =
    get_packet_loop-stuck noted 1000 garbled blank (omega arith) garbled-IsStuck

-- The first bytes of a trade are kept, and the rest completes it.
abbrev first_part : List ℕ
first_part = header Kind.trade_message 7 ++ zeros 10

first_part_runs :
    get_packet_from_message noted [] first_part blank ≡ ok (some (kept first_part blank))
unfolding get_packet_from_message read_packets move_to_front turn_on
first_part_runs = refl

get_packet_from_message-kept_example : suc (length first_part) ≤ 45
get_packet_from_message-kept_example =
    get_packet_from_message-kept noted [] first_part first_part blank blank first_part_runs

abbrev error_response : List ℕ
error_response = header Kind.recovery_response 0 ++ (b'E' ∷ [])

get_packet_from_message-error_example :
    get_packet_from_message noted [] (error_response ++ trade_bytes 7) blank
    ≡ moved noted 55 (read_packets noted (trade_bytes 7) blank)
get_packet_from_message-error_example =
    get_packet_from_message-error noted [] (error_response ++ trade_bytes 7) blank refl refl
      (omega arith)

-- A response, and a trade but for its last byte.
abbrev good_response : List ℕ
good_response = header Kind.recovery_response 0 ++ (b'S' ∷ [])

good-IsResponse : IsResponse good_response
good-IsResponse = record { size = refl; kind = refl; status = ground arith }

trade-IsMessage : IsMessage (trade_bytes 7)
unfolding size_of
trade-IsMessage = refl

get_packet_from_message-overlaps_example :
    get_packet_from_message noted []
      (good_response ++ (header Kind.trade_message 7 ++ zeros 35))
      blank
    ≡ fault overlapping_memcpy
get_packet_from_message-overlaps_example =
    get_packet_from_message-overlaps noted [] good_response
      (header Kind.trade_message 7 ++ zeros 35) (0 ∷ []) blank good-IsResponse trade-IsMessage
      (omega arith) (omega arith)

-- Two trades, the second one in part.
two_trades_run :
    get_packet_from_message noted [] (trade_bytes 7 ++ first_part) blank
    ≡ ok (
        some (
          kept first_part
            (record { union = trade_bytes 7; last_seq_no = 7; count = 1; sink = 7 ∷ [] })))
unfolding get_packet_from_message read_packets move_to_front turn_on read_bcast_msg
two_trades_run = refl
