-- ===== src/Feed/Steps.antt =====
-- The steps of the loop of `main` that come back, taken apart.
use real_time_cr.Prelude.{Exec, ok, fault, bind-eq-ok, ℕ, ◌≡◌, Option, none, some, List, ◌∷◌, arith}
use real_time_cr.ShmQueue.{SpscQueue}
use real_time_cr.Writer.Groups.{ConRevTradeDetails}
use real_time_cr.Writer.{Stores}
use real_time_cr.Feed.{
  Feed, write_data_in_file1, fill_gap, World, Stores, accept, split_recovery_data_request,
  keep_going, add32, sub32, on_datagram, feed_loop,
}
use real_time_cr.Message.{BcastMsg}
use real_time_cr.Recovery.{World, split_recovery_data_request}
use real_time_cr.Words.{add32, sub32}

module _ (spsc : SpscQueue ConRevTradeDetails) (garbage : List ℕ)
    (connection_delay max_packet_count : ℕ) where
  abbrev pub State : Type 0
  State = Feed spsc garbage connection_delay max_packet_count

  abbrev pub left : State → World (Stores spsc) → Exec (Option (State × World (Stores spsc)))
  left f w = ok (some (f, w))

  -- The number of the message is noted, and the rest is what the run left.
  pub keep_going-ran :
      (f f' : State) (r : Exec (Option (World (Stores spsc)))) (w' : World (Stores spsc))
      → keep_going spsc garbage connection_delay max_packet_count f r ≡ ok (some (f', w'))
      → (f ≡ f') × (r ≡ ok (some w'))
  keep_going-ran f f' (fault e) w' h = absurd cc
  keep_going-ran f f' (ok none) w' h = absurd cc
  keep_going-ran f f' (ok (some w)) w' h = (ground arith, ground arith)

  -- A run over a datagram and more is a run over each.
  pub two_steps :
      (d : List ℕ) (ds : List (List ℕ)) (f f' : State) (w w' : World (Stores spsc))
      → feed_loop spsc garbage connection_delay max_packet_count (d ∷ ds) f w ≡ left f' w'
      → (f1 : State) × (w1 : World (Stores spsc)) × (on_datagram spsc garbage connection_delay
            max_packet_count d f w
          ≡ left f1 w1)
        × (feed_loop spsc garbage connection_delay max_packet_count ds f1 w1 ≡ left f' w')
  unfolding feed_loop
  two_steps d ds f f' w w' h =
      let (r, e, k) =
        bind-eq-ok (on_datagram spsc garbage connection_delay max_packet_count d f w)
          (λ r. elim r [
            | none ↦ ok none
            | some (f1, w1) ↦ feed_loop spsc garbage connection_delay max_packet_count ds f1 w1
          ])
          h in
      go r e k
    where
      go :
          (r : Option (State × World (Stores spsc)))
          → on_datagram spsc garbage connection_delay max_packet_count d f w ≡ ok r
          → elim r [
            | none ↦ ok none
            | some (f1, w1) ↦ feed_loop spsc garbage connection_delay max_packet_count ds f1 w1
          ]
            ≡ left f' w'
          → (f1 : State) × (w1 : World (Stores spsc)) × (on_datagram spsc garbage connection_delay
                max_packet_count d f w
              ≡ left f1 w1)
            × (feed_loop spsc garbage connection_delay max_packet_count ds f1 w1 ≡ left f' w')
      go none e k = absurd cc
      go (some (f1, w1)) e k = (f1, w1, e, k)

  -- A gap is filled by a recovery and the message behind it.
  pub fill_gap-ran :
      (last : ℕ) (m : BcastMsg) (w w' : World (Stores spsc))
      → fill_gap spsc garbage connection_delay max_packet_count last m w ≡ ok (some w')
      → (w1 : World (Stores spsc)) × (split_recovery_data_request
            (write_data_in_file1 spsc garbage connection_delay max_packet_count)
            garbage
            connection_delay
            max_packet_count
            (add32 last 1)
            (sub32 m.seq_no 1)
            w
          ≡ ok (some (tt, w1)))
        × (accept spsc garbage connection_delay max_packet_count m w1 ≡ ok (some w'))
  unfolding fill_gap
  fill_gap-ran last m w w' h =
      let (r, e, k) =
        bind-eq-ok
          (split_recovery_data_request
            (write_data_in_file1 spsc garbage connection_delay max_packet_count) garbage
            connection_delay max_packet_count (add32 last 1) (sub32 m.seq_no 1) w)
          (λ r. elim r [
            | none ↦ ok none
            | some (_, w') ↦ accept spsc garbage connection_delay max_packet_count m w'
          ])
          h in
      go r e k
    where
      go :
          (r : Option (Unit {0} × World (Stores spsc)))
          → split_recovery_data_request
              (write_data_in_file1 spsc garbage connection_delay max_packet_count)
              garbage
              connection_delay
              max_packet_count
              (add32 last 1)
              (sub32 m.seq_no 1)
              w
            ≡ ok r
          → elim r [
            | none ↦ ok none
            | some (_, w') ↦ accept spsc garbage connection_delay max_packet_count m w'
          ]
            ≡ ok (some w')
          → (w1 : World (Stores spsc)) × (split_recovery_data_request
                (write_data_in_file1 spsc garbage connection_delay max_packet_count)
                garbage
                connection_delay
                max_packet_count
                (add32 last 1)
                (sub32 m.seq_no 1)
                w
              ≡ ok (some (tt, w1)))
            × (accept spsc garbage connection_delay max_packet_count m w1 ≡ ok (some w'))
      go none e k = absurd cc
      go (some (tt, w1)) e k = (w1, e, k)
