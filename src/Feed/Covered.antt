-- ===== src/Feed/Covered.antt =====
-- The sequence numbers that the loop of `main` accounts for.
use real_time_cr.Prelude.{length, ok, ℕ, ◌+◌, ◌-◌, ◌^◌, ◌≤◌, ◌<◌, ◌≡◌, some, List, [], ◌∷◌}
use real_time_cr.ShmQueue.{SpscQueue}
use real_time_cr.Writer.Groups.{ConRevTradeDetails}
use real_time_cr.Writer.{Stores}
use real_time_cr.Feed.{write_data_in_file1, accept}
use real_time_cr.Message.{BcastMsg, read_bcast_msg, assign}
use real_time_cr.Recovery.{World}
use real_time_cr.Recovery.Tiles.{Recovered}
use real_time_cr.Words.{order32}

-- The messages that stand in the union behind each datagram with bytes.
abbrev pub messages : List ℕ → List (List ℕ) → List BcastMsg
messages union [] = []
messages union ([] ∷ ds) = messages union ds
messages union ((b ∷ bs) ∷ ds) =
    let union' = assign (length (b ∷ bs)) (b ∷ bs) union in
    read_bcast_msg union' ∷ messages union' ds

module _ (spsc : SpscQueue ConRevTradeDetails) (garbage : List ℕ)
    (connection_delay max_packet_count : ℕ) where
  -- How messages take the loop from the last number `last` and the state `w` to `last'` and `w'`: a message
  -- with an old number is passed over, one with the next number is written, and in front of one with a later
  -- number the numbers in between are recovered.
  pub data Covered (last' : ℕ) (w' : World (Stores spsc))
      : List BcastMsg → ℕ → World (Stores spsc) → Type 0 where
    done : Covered last' w' [] last' w'
    old :
        {m : BcastMsg} {ms : List BcastMsg} {last : ℕ} {w : World (Stores spsc)}
        → order32 m.seq_no ≤ last + 2 ^ 31
        → Covered last' w' ms last w
        → Covered last' w' (m ∷ ms) last w
    next :
        {m : BcastMsg} {ms : List BcastMsg} {last : ℕ} {w w1 : World (Stores spsc)}
        → m.seq_no ≡ last + 1
        → accept spsc garbage connection_delay max_packet_count m w ≡ ok (some w1)
        → Covered last' w' ms m.seq_no w1
        → Covered last' w' (m ∷ ms) last w
    gap :
        {m : BcastMsg} {ms : List BcastMsg} {last : ℕ} {w w1 w2 : World (Stores spsc)}
        → last + 1 < m.seq_no
        → Recovered
            (write_data_in_file1 spsc garbage connection_delay max_packet_count)
            garbage
            connection_delay
            max_packet_count
            (m.seq_no - 1)
            w1
            (last + 1)
            w
        → accept spsc garbage connection_delay max_packet_count m w1 ≡ ok (some w2)
        → Covered last' w' ms m.seq_no w2
        → Covered last' w' (m ∷ ms) last w
