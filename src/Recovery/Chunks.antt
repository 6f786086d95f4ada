-- ===== src/Recovery/Chunks.antt =====
-- What `GetPacketFromMessage` keeps, and what it makes of a response.
use real_time_cr.Prelude.{
  ltb, Bool-cases, length, get_or, drop, length-drop, Exec, ok, ℕ, zero, suc, ◌≤◌, ◌≡◌, sym, ap,
  ◌∙◌, inl, inr, false, some, List, arith, subst,
}
use real_time_cr.Message.{BcastMsg, request_error}
use real_time_cr.Recovery.Packets.{
  get_packet_from_message, read_packets, moved, get_packet_loop, turn_on, Reader, take_response,
  kept, turn, advanced,
}
use real_time_cr.Recovery.Rounds.{turn-cases, turn-partial}
use real_time_cr.Recovery.Moved.{read_packets-eq-some}
use real_time_cr.Recovery.Parsing.{enough_fuel, stuck}
use real_time_cr.Message.Kind
use real_time_cr.Message.Size

module _ {S : Type 0} (write : BcastMsg → S → Exec S) where
  kept_short :
      (fuel : ℕ) (a p : List ℕ) (r r1 : Reader S)
      → get_packet_loop write fuel a r ≡ ok (some (kept p r1))
      → suc (length p) ≤ Size.trd_msg
  unfolding get_packet_loop
  kept_short zero a p r r1 h = cc
  kept_short (suc fuel) a p r r1 h = elim (Bool-cases (ltb (length a) Size.msg_header)) [
    | inl short ↦
        let e = rw (get_packet_loop, short) at h in
        let same : a ≡ p = ground arith in subst (λ l. suc (length l) ≤ 45) same (ground arith)
    | inr header ↦ elim (turn-cases write a r) [
      | inl (rest, r2, t) ↦ kept_short fuel rest p r2 r1 (rw (get_packet_loop, header, t) at h)
      | inr (inl t) ↦
          let e = rw (get_packet_loop, header, t) at h in
          let same : a ≡ p = ground arith in
          subst (λ l. suc (length l) ≤ 45) same (turn-partial write a r t)
      | inr (inr (inl t)) ↦ let e = sym (stuck write (suc fuel) a r header t) ∙ h in cc
      | inr (inr (inr (inl t))) ↦ let e = rw (get_packet_loop, header, t) at h in cc
      | inr (inr (inr (inr (e, t)))) ↦ let e = rw (get_packet_loop, header, t) at h in cc
    ]
  ]

  -- The bytes that a call keeps for the next one are fewer than a trade message has, so that
  -- `recv` always has room in the buffer of 8192 bytes.
  pub get_packet_from_message-kept :
      (garbage a p : List ℕ) (r r1 : Reader S)
      → get_packet_from_message write garbage a r ≡ ok (some (kept p r1))
      → suc (length p) ≤ Size.trd_msg
  unfolding read_packets
  get_packet_from_message-kept garbage a p r r1 h =
      kept_short (suc (length a)) a p (record r { union = garbage }) r1
        (read_packets-eq-some write garbage a r (kept p r1) h)

  -- A response with the status for an error, received in full, is passed over, and the call does what the loop makes
  -- of the bytes behind it: they are read as if the request had succeeded.
  pub get_packet_from_message-error :
      (garbage bytes : List ℕ) (r : Reader S)
      → get_or bytes 8 0 ≡ Kind.recovery_response
      → get_or bytes 9 0 ≡ request_error
      → Size.recovery_resp ≤ length bytes
      → get_packet_from_message write garbage bytes r
        ≡ moved write
            (length bytes)
            (read_packets write (drop 10 bytes) (record r { union = garbage }))
  unfolding get_packet_from_message read_packets get_packet_loop turn_on take_response
  get_packet_from_message-error garbage bytes r kind status there =
      let fresh : Reader S = record r { union = garbage } in
      let header : ltb (length bytes) 9 ≡ false = ground arith in
      let t : turn write bytes fresh ≡ ok (advanced (drop 10 bytes) fresh) = ground arith in
      ap (moved write (length bytes)) (
        rw (get_packet_loop, header, t)
          (enough_fuel write (length bytes) (suc (length (drop 10 bytes))) (drop 10 bytes) fresh
            (omega (arith, length-drop 10 bytes)) (omega arith)))
