-- ===== src/Feed/Descriptors.antt =====
-- The sockets of the recovery manager that are open behind any datagrams.
use real_time_cr.Prelude.{ok, ℕ, ◌≡◌, refl, some, List, []}
use real_time_cr.ShmQueue.{SpscQueue}
use real_time_cr.Writer.Groups.{ConRevTradeDetails}
use real_time_cr.Writer.{Stores}
use real_time_cr.Feed.{write_data_in_file1, feed_loop}
use real_time_cr.Recovery.{World}
use real_time_cr.Recovery.Leaks.{Leaves, Leaves-idle, Leaves-chain}
use real_time_cr.Recovery.Sockets.{split_recovery_data_request-Leaves}
use real_time_cr.Feed.Steps.{State}
use real_time_cr.Feed.Kept.{feed_loop-Follows}

module _ (spsc : SpscQueue ConRevTradeDetails) (garbage : List ℕ)
    (connection_delay max_packet_count : ℕ) where
  -- However the calls of the world come out, the loop of `main` leaves open exactly the sockets of the attempts, among
  -- those that it has used up, that made a socket and could not connect it: one for each, and no other.
  pub feed_loop-Leaves :
      (ds : List (List ℕ)) (f f' : State spsc garbage connection_delay max_packet_count)
      (w w' : World (Stores spsc))
      → feed_loop spsc garbage connection_delay max_packet_count ds f w ≡ ok (some (f', w'))
      → Leaves w w'
  feed_loop-Leaves =
      feed_loop-Follows spsc garbage connection_delay max_packet_count Leaves Leaves-idle
        Leaves-chain (λ m w s e. record { used = []; used_up = refl; left_open = refl })
        (split_recovery_data_request-Leaves
          (write_data_in_file1 spsc garbage connection_delay max_packet_count) garbage
          connection_delay max_packet_count)
