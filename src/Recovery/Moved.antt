-- ===== src/Recovery/Moved.antt =====
-- The bytes that `GetPacketFromMessage` moves to the front of the buffer, and when it may.
use real_time_cr.Prelude.{
  Bool-cases, length, Exec, ok, fault, ℕ, ◌+◌, ◌≤◌, ◌≡◌, refl, ◌⊎◌, inl, inr, false, Option, none,
  some, List, arith,
}
use real_time_cr.Message.{BcastMsg}
use real_time_cr.Recovery.Packets.{
  Reader, Parsed, kept, stopped, overlaps, move_to_front, moved, read_packets,
  get_packet_from_message,
}

-- The `memcpy` is defined: all bytes stay where they are, or as many at least have been read in front of those left.
abbrev pub IsMovable : (total pending : ℕ) → Type 0
IsMovable total pending = (pending ≡ total) ⊎ (pending + pending ≤ total)

module _ {S : Type 0} (write : BcastMsg → S → Exec S) where
  -- What the call returns, the loop has returned.
  moved-eq-some :
      (total : ℕ) (m : Exec (Option (Parsed S))) (q : Parsed S)
      → moved write total m ≡ ok (some q)
      → m ≡ ok (some q)
  unfolding move_to_front
  moved-eq-some total (fault e) q h = cc
  moved-eq-some total (ok none) q h = cc
  moved-eq-some total (ok (some (stopped r))) q h = h
  moved-eq-some total (ok (some (kept rest r))) q h =
      elim (Bool-cases (overlaps write total (length rest))) [
        | inl bad ↦ let e = rw bad at h in cc
        | inr good ↦ rw good at h
      ]

  moved-eq-none :
      (total : ℕ) (m : Exec (Option (Parsed S))) → moved write total m ≡ ok none → m ≡ ok none
  unfolding move_to_front
  moved-eq-none total (fault e) h = cc
  moved-eq-none total (ok none) h = refl
  moved-eq-none total (ok (some (stopped r))) h = cc
  moved-eq-none total (ok (some (kept rest r))) h = absurd (ground arith)

  pub read_packets-eq-some :
      (garbage bytes : List ℕ) (r : Reader S) (q : Parsed S)
      → get_packet_from_message write garbage bytes r ≡ ok (some q)
      → read_packets write bytes (record r { union = garbage }) ≡ ok (some q)
  unfolding get_packet_from_message
  read_packets-eq-some garbage bytes r q h = moved-eq-some (length bytes) _ q h

  pub read_packets-eq-none :
      (garbage bytes : List ℕ) (r : Reader S)
      → get_packet_from_message write garbage bytes r ≡ ok none
      → read_packets write bytes (record r { union = garbage }) ≡ ok none
  unfolding get_packet_from_message
  read_packets-eq-none garbage bytes r h = moved-eq-none (length bytes) _ h

  pub moved-kept :
      (total : ℕ) (rest : List ℕ) (r : Reader S)
      → IsMovable total (length rest)
      → moved write total (ok (some (kept rest r))) ≡ ok (some (kept rest r))
  unfolding move_to_front
  moved-kept total rest r (inl all) =
      let good : overlaps write total (length rest) ≡ false = ground arith in rw good refl
  moved-kept total rest r (inr less) =
      let good : overlaps write total (length rest) ≡ false = ground arith in rw good refl
