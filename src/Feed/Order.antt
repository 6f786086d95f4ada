-- ===== src/Feed/Order.antt =====
-- The sequence numbers that the loop of `main` has seen.
use real_time_cr.Prelude.{
  ◌==◌, Bool-cases, length, ok, ℕ, ◌≤◌, ◌≡◌, inl, inr, false, not, ◌||◌, some, List, [], ◌∷◌, arith,
}
use real_time_cr.ShmQueue.{SpscQueue}
use real_time_cr.Writer.Groups.{ConRevTradeDetails}
use real_time_cr.Writer.{Stores}
use real_time_cr.Feed.{
  feed_loop, on_message, on_datagram, Feed, World, BcastMsg, Stores, assign, lt32, sub32,
}
use real_time_cr.Message.{BcastMsg, assign}
use real_time_cr.Recovery.{World}
use real_time_cr.Words.{order32, lt32, sub32}
use real_time_cr.Feed.Steps.{left, two_steps, keep_going-ran}

module _ (spsc : SpscQueue ConRevTradeDetails) (garbage : List ℕ)
    (connection_delay max_packet_count : ℕ) where
  abbrev State : Type 0
  State = Feed spsc garbage connection_delay max_packet_count

  -- A message is written only if its number is higher than the last one.
  on_message_order :
      (m : BcastMsg) (f f' : State) (w w' : World (Stores spsc))
      → on_message spsc garbage connection_delay max_packet_count m f w ≡ ok (some (f', w'))
      → order32 f.last_seq_no ≤ order32 f'.last_seq_no
  unfolding on_message
  on_message_order m f f' w w' h =
      elim (Bool-cases (m.seq_no == 0 || not (lt32 f.last_seq_no m.seq_no))) [
        | inl old ↦ same (rw old at h)
        | inr new ↦ elim (Bool-cases (sub32 m.seq_no f.last_seq_no == 1)) [
          | inl next ↦
              up new
                (keep_going-ran spsc garbage connection_delay max_packet_count fresh f' _ w'
                  (rw (new, next) at h)).0
          | inr other ↦ elim (Bool-cases (lt32 1 (sub32 m.seq_no f.last_seq_no))) [
            | inl gap ↦
                up new
                  (keep_going-ran spsc garbage connection_delay max_packet_count fresh f' _ w'
                    (rw (new, other, gap) at h)).0
            | inr wrapped ↦ same (rw (new, other, wrapped) at h)
          ]
        ]
      ]
    where
      fresh : State
      fresh = record f { last_seq_no = m.seq_no }

      same :
          left spsc garbage connection_delay max_packet_count f w
            ≡ left spsc garbage connection_delay max_packet_count f' w'
          → order32 f.last_seq_no ≤ order32 f'.last_seq_no
      same e = let e1 : f ≡ f' = ground arith in rw (← e1) (omega arith)

      up :
          (m.seq_no == 0 || not (lt32 f.last_seq_no m.seq_no)) ≡ false
          → fresh ≡ f'
          → order32 f.last_seq_no ≤ order32 f'.last_seq_no
      up new e = rw (← e) (ground arith)

  on_datagram_order :
      (d : List ℕ) (f f' : State) (w w' : World (Stores spsc))
      → on_datagram spsc garbage connection_delay max_packet_count d f w ≡ ok (some (f', w'))
      → order32 f.last_seq_no ≤ order32 f'.last_seq_no
  unfolding on_datagram
  on_datagram_order [] f f' w w' h = let e1 : f ≡ f' = ground arith in rw (← e1) (omega arith)
  on_datagram_order (b ∷ bs) f f' w w' h =
      on_message_order _ (record f { union = assign (length (b ∷ bs)) (b ∷ bs) f.union }) f' w w' h

  -- In the order of `int`, the last sequence number never goes down, whatever datagrams arrive.
  pub feed_loop_order :
      (ds : List (List ℕ)) (f f' : State) (w w' : World (Stores spsc))
      → feed_loop spsc garbage connection_delay max_packet_count ds f w ≡ ok (some (f', w'))
      → order32 f.last_seq_no ≤ order32 f'.last_seq_no
  unfolding feed_loop
  feed_loop_order [] f f' w w' h = let e1 : f ≡ f' = ground arith in rw (← e1) (omega arith)
  feed_loop_order (d ∷ ds) f f' w w' h =
      let (f1, w1, e, k) =
        two_steps spsc garbage connection_delay max_packet_count d ds f f' w w' h in
      let a = on_datagram_order d f f1 w w1 e in
      let b = feed_loop_order ds f1 f' w1 w' k in omega arith
