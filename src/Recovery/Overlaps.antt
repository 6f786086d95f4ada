-- ===== src/Recovery/Overlaps.antt =====
-- Where the `memcpy` of `GetPacketFromMessage` is undefined.
use real_time_cr.Prelude.{
  length, length-append, overlapping_memcpy, fault, Exec, ℕ, ◌<◌, ◌≡◌, refl, sym, ap, ◌∙◌, true,
  List, [], ◌++◌, arith,
}
use mathlib.Core.List.{append-nil}
use real_time_cr.Message.{BcastMsg}
use real_time_cr.Recovery.Answer.{IsMessage, IsResponse}
use real_time_cr.Recovery.Packets.{Reader, overlaps, moved, move_to_front, get_packet_from_message}
use real_time_cr.Recovery.Pieces.{part_of_message, response_passed}

module _ {S : Type 0} (write : BcastMsg → S → Exec S) where
  -- The first bytes that come are a response and more than 10 bytes of a message, but not all of it: the bytes of
  -- the message are moved to where they overlap with themselves.
  pub get_packet_from_message-overlaps :
      (garbage response part rest : List ℕ) (r : Reader S)
      → IsResponse response
      → IsMessage (part ++ rest)
      → 10 < length part
      → 0 < length rest
      → get_packet_from_message write garbage (response ++ part) r ≡ fault overlapping_memcpy
  unfolding get_packet_from_message move_to_front
  get_packet_from_message-overlaps garbage response part rest r is whole more less =
      let fresh : Reader S = record r { union = garbage } in
      let total = length (response ++ part) in
      let size = length-append response part in
      let run =
        response_passed write garbage response part fresh is
        ∙ part_of_message write garbage (part ++ rest) part rest [] fresh whole
            (sym (append-nil (part ++ rest))) (omega (arith, length-append part rest)) in
      let bad : overlaps write total (length part) ≡ true = ground (arith, size, is.size) in
      ap (moved write total) run ∙ rw bad refl
