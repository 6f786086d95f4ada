-- ===== src/Feed/Invariant.antt =====
-- The stores after any datagrams.
use real_time_cr.Prelude.{ok, ℕ, ◌≡◌, some, List}
use real_time_cr.ShmQueue.{SpscQueue}
use real_time_cr.Writer.Groups.{ConRevTradeDetails}
use real_time_cr.Writer.{Stores}
use real_time_cr.Feed.{write_data_in_file1, World, Stores, feed_loop}
use real_time_cr.Message.{BcastMsg}
use real_time_cr.Recovery.{World}
use real_time_cr.Writer.Collected.{IsValid, write_data_in_file-IsValid}
use real_time_cr.Feed.Steps.{State}
use real_time_cr.Feed.Kept.{feed_loop-Keeps}

module _ (spsc : SpscQueue ConRevTradeDetails) (garbage : List ℕ)
    (connection_delay max_packet_count : ℕ) where
  write-IsValid :
      (m : BcastMsg) (s s' : Stores spsc)
      → IsValid spsc s
      → write_data_in_file1 spsc garbage connection_delay max_packet_count m s ≡ ok s'
      → IsValid spsc s'
  unfolding write_data_in_file1
  write-IsValid m s s' v h = write_data_in_file-IsValid spsc m s s' v h

  -- Whatever datagrams arrive and whatever the recovery server answers, the stores are valid when the
  -- loop has read them, if they were before: the token set is that of the collected trades, and each
  -- collected trade has exactly one order id.
  pub feed_loop-IsValid :
      (ds : List (List ℕ)) (f f' : State spsc garbage connection_delay max_packet_count)
      (w w' : World (Stores spsc))
      → IsValid spsc w.sink
      → feed_loop spsc garbage connection_delay max_packet_count ds f w ≡ ok (some (f', w'))
      → IsValid spsc w'.sink
  feed_loop-IsValid =
      feed_loop-Keeps spsc garbage connection_delay max_packet_count (IsValid spsc) write-IsValid
