-- ===== src/Recovery/Tiles.antt =====
-- The blocks in which a range of messages is asked for.
use native.Mathlib.Nat.{div-le_self}
use real_time_cr.Prelude.{
  ltb, Exec, ok, ℕ, suc, ◌+◌, ◌-◌, ◌/◌, ◌^◌, ◌≤◌, ◌<◌, ◌≡◌, refl, true, false, some, List, arith,
}
use real_time_cr.Recovery.{
  World, recover_block, split_loop, BcastMsg, add32, split_recovery_data_request, lt32, sub32,
}
use real_time_cr.Message.{BcastMsg}
use real_time_cr.Words.{add32, lt32, sub32, div32-positive}

module _ {S : Type 0} (write : BcastMsg → S → Exec S) (garbage : List ℕ)
    (connection_delay max_packet_count : ℕ) where
  -- From the state `w` to the state `w'` the range from `from` to `to` is recovered in blocks, one behind the
  -- other, none empty and none of more than one message above the maximum, each up to its last message.
  pub data Recovered (to : ℕ) (w' : World S) : ℕ → World S → Type 0 where
    last_block :
        {from : ℕ} {w : World S}
        → from ≤ to
        → to ≤ from + max_packet_count
        → recover_block write garbage connection_delay max_packet_count from to w
          ≡ ok (some (to, w'))
        → Recovered to w' from w
    block :
        {from upto : ℕ} {w w1 : World S}
        → from ≤ upto
        → upto ≤ from + max_packet_count
        → recover_block write garbage connection_delay max_packet_count from upto w
          ≡ ok (some (upto, w1))
        → Recovered to w' (suc upto) w1
        → Recovered to w' from w

  -- For such a range the loop has one round for each full block.
  pub split_rounds :
      (from to : ℕ) (w : World S)
      → from ≤ to
      → to < 2 ^ 31
      → 0 < max_packet_count
      → max_packet_count < 2 ^ 31
      → split_recovery_data_request write garbage connection_delay max_packet_count from to w
        ≡ split_loop write garbage connection_delay max_packet_count
            ((to - from) / max_packet_count)
            from
            from
            to
            w
  unfolding split_recovery_data_request
  split_rounds from to w le small pos max =
      let full = (to - from) / max_packet_count in
      let right : lt32 to from ≡ false = ground arith in
      let span : sub32 to from ≡ to - from = omega arith in
      let few = div-le_self (to - from) max_packet_count in
      let rounds : ltb full (2 ^ 31) ≡ true = ground (arith, few) in
      rw (right, span, div32-positive (to - from) max_packet_count (omega arith) pos max, rounds)
        refl
