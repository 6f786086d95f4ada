-- ===== src/Recovery/Parsing.antt =====
-- `GetPacketFromMessage`: the bytes on which its loop does not end, and how many rounds it takes.
use real_time_cr.Prelude.{
  ltb, Bool-cases, length, get_or, All, Exec, ok, ℕ, zero, suc, ◌≤◌, ◌≡◌, refl, ◌≢◌, ◌⊎◌, inl, inr,
  false, none, List, [], ◌∷◌, arith,
}
use real_time_cr.Message.{BcastMsg}
use real_time_cr.Recovery.Packets.{Reader, turn_on, get_packet_loop, turn, take_response, unchanged}
use real_time_cr.Recovery.Rounds.{turn-cases, turn-advanced}
use real_time_cr.Message.Kind
use real_time_cr.Message.Size

abbrev pub known_kinds : List ℕ
known_kinds =
    Kind.begin_of_master ∷ Kind.contract_information ∷ Kind.spread_information ∷ Kind.end_of_master
    ∷ Kind.new_order ∷ Kind.order_modification ∷ Kind.order_cancellation ∷ Kind.trade_message
    ∷ Kind.spread_new_order ∷ Kind.spread_order_modification ∷ Kind.spread_order_cancellation
    ∷ Kind.spread_trade_message ∷ Kind.recovery_response ∷ []

abbrev pub IsUnknown : ℕ → Type 0
IsUnknown kind = All (λ k. kind ≢ k) known_kinds

abbrev pub IsStuck : List ℕ → Type 0
IsStuck bytes =
    IsUnknown (get_or bytes 8 0)
    ⊎ ((get_or bytes 8 0 ≡ Kind.recovery_response) × (suc (length bytes) ≤ Size.recovery_resp))

module _ {S : Type 0} (write : BcastMsg → S → Exec S) where
  -- A round in which nothing changes is followed by the same round.
  pub stuck :
      (fuel : ℕ) (bytes : List ℕ) (r : Reader S)
      → ltb (length bytes) Size.msg_header ≡ false
      → turn write bytes r ≡ ok unchanged
      → get_packet_loop write fuel bytes r ≡ ok none
  unfolding get_packet_loop
  stuck zero bytes r header h = refl
  stuck (suc fuel) bytes r header h = rw (get_packet_loop, header, h) (stuck fuel bytes r header h)

  -- More fuel than there are bytes makes no difference.
  pub enough_fuel :
      (m n : ℕ) (bytes : List ℕ) (r : Reader S)
      → suc (length bytes) ≤ m
      → suc (length bytes) ≤ n
      → get_packet_loop write m bytes r ≡ get_packet_loop write n bytes r
  unfolding get_packet_loop
  enough_fuel zero n bytes r hm hn = absurd (omega arith)
  enough_fuel (suc m) zero bytes r hm hn = absurd (omega arith)
  enough_fuel (suc m) (suc n) bytes r hm hn =
      elim (Bool-cases (ltb (length bytes) Size.msg_header)) [
        | inl short ↦ rw (get_packet_loop, short) refl
        | inr header ↦ elim (turn-cases write bytes r) [
          | inl (rest, r1, h) ↦
              let (less, _) = turn-advanced write bytes [] rest r r1 (ground arith) h in
              rw (get_packet_loop, header, h) (enough_fuel m n rest r1 (omega arith) (omega arith))
          | inr (inl h) ↦ rw (get_packet_loop, header, h) refl
          | inr (inr (inl h)) ↦
              rw (get_packet_loop, header, h, stuck m bytes r header h, stuck n bytes r header h)
                refl
          | inr (inr (inr (inl h))) ↦ rw (get_packet_loop, header, h) refl
          | inr (inr (inr (inr (e, h)))) ↦ rw (get_packet_loop, header, h) refl
        ]
      ]

  -- On 9 bytes or more, a message type that the protocol does not have keeps the loop from ending, and
  -- so does a response of which the last byte is not there yet.
  pub get_packet_loop-stuck :
      (fuel : ℕ) (bytes : List ℕ) (r : Reader S)
      → Size.msg_header ≤ length bytes
      → IsStuck bytes
      → get_packet_loop write fuel bytes r ≡ ok none
  unfolding turn_on take_response
  get_packet_loop-stuck fuel bytes r header (inl unknown) =
      stuck fuel bytes r (ground arith) (ground arith)
  get_packet_loop-stuck fuel bytes r header (inr (response, short)) =
      stuck fuel bytes r (ground arith) (ground arith)
