-- ===== src/Feed/Kept.antt =====
-- What `WriteDataInFile1` keeps, the loop over the datagrams keeps, recovery included.
use real_time_cr.Prelude.{
  ◌==◌, Bool-cases, ok, bind-eq-ok, ℕ, ◌≡◌, inl, inr, not, ◌||◌, some, List, [], ◌∷◌, arith, subst,
}
use real_time_cr.ShmQueue.{SpscQueue}
use real_time_cr.Writer.Groups.{ConRevTradeDetails}
use real_time_cr.Writer.{Stores}
use real_time_cr.Feed.{
  write_data_in_file1, fill_gap, World, Stores, accept, on_message, split_recovery_data_request,
  add32, lt32, sub32, on_datagram, feed_loop,
}
use real_time_cr.Message.{BcastMsg}
use real_time_cr.Recovery.{World, split_recovery_data_request}
use real_time_cr.Words.{add32, lt32, sub32}
use real_time_cr.Recovery.Sink.{split_recovery_data_request-Keeps}
use real_time_cr.Feed.Steps.{State, left, keep_going-ran, two_steps, fill_gap-ran}

-- A relation between states of the world that holds of no step at all, of two runs in a row if it holds of each,
-- of each message that is written, and of each call of the recovery manager.
module _ (spsc : SpscQueue ConRevTradeDetails) (garbage : List ℕ)
    (connection_delay max_packet_count : ℕ) (R : World (Stores spsc) → World (Stores spsc) → Type 0)
    (idle : (w : World (Stores spsc)) → R w w)
    (chain : (u v w : World (Stores spsc)) → R u v → R v w → R u w)
    (written : (m : BcastMsg) (w : World (Stores spsc)) (s : Stores spsc)
      → write_data_in_file1 spsc garbage connection_delay max_packet_count m w.sink ≡ ok s
      → R w (record w { sink = s }))
    (recovered : (from to : ℕ) (w w' : World (Stores spsc))
      → split_recovery_data_request
          (write_data_in_file1 spsc garbage connection_delay max_packet_count)
          garbage
          connection_delay
          max_packet_count
          from
          to
          w
        ≡ ok (some (tt, w'))
      → R w w') where
  abbrev Run : Type 0
  Run = State spsc garbage connection_delay max_packet_count

  accept-Follows :
      (m : BcastMsg) (w w' : World (Stores spsc))
      → accept spsc garbage connection_delay max_packet_count m w ≡ ok (some w')
      → R w w'
  accept-Follows m w w' h =
      let (s, e, k) =
        bind-eq-ok (write_data_in_file1 spsc garbage connection_delay max_packet_count m w.sink)
          (λ s. ok (some (record w { sink = s }))) h in
      let same : record w { sink = s } ≡ w' = ground arith in subst (R w) same (written m w s e)

  fill_gap-Follows :
      (last : ℕ) (m : BcastMsg) (w w' : World (Stores spsc))
      → fill_gap spsc garbage connection_delay max_packet_count last m w ≡ ok (some w')
      → R w w'
  fill_gap-Follows last m w w' h =
      let (w1, e, k) = fill_gap-ran spsc garbage connection_delay max_packet_count last m w w' h in
      chain w w1 w' (recovered (add32 last 1) (sub32 m.seq_no 1) w w1 e) (accept-Follows m w1 w' k)

  on_message-Follows :
      (m : BcastMsg) (f f' : Run) (w w' : World (Stores spsc))
      → on_message spsc garbage connection_delay max_packet_count m f w ≡ ok (some (f', w'))
      → R w w'
  unfolding on_message
  on_message-Follows m f f' w w' h =
      elim (Bool-cases (m.seq_no == 0 || not (lt32 f.last_seq_no m.seq_no))) [
        | inl old ↦ same (rw old at h)
        | inr new ↦ elim (Bool-cases (sub32 m.seq_no f.last_seq_no == 1)) [
          | inl next ↦
              let (_, e) =
                keep_going-ran spsc garbage connection_delay max_packet_count fresh f' _ w'
                  (rw (new, next) at h) in
              accept-Follows m w w' e
          | inr other ↦ elim (Bool-cases (lt32 1 (sub32 m.seq_no f.last_seq_no))) [
            | inl gap ↦
                let (_, e) =
                  keep_going-ran spsc garbage connection_delay max_packet_count fresh f' _ w'
                    (rw (new, other, gap) at h) in
                fill_gap-Follows f.last_seq_no m w w' e
            | inr wrapped ↦ same (rw (new, other, wrapped) at h)
          ]
        ]
      ]
    where
      fresh : Run
      fresh = record f { last_seq_no = m.seq_no }

      same :
          left spsc garbage connection_delay max_packet_count f w
            ≡ left spsc garbage connection_delay max_packet_count f' w'
          → R w w'
      same e = let e1 : w ≡ w' = ground arith in subst (R w) e1 (idle w)

  on_datagram-Follows :
      (d : List ℕ) (f f' : Run) (w w' : World (Stores spsc))
      → on_datagram spsc garbage connection_delay max_packet_count d f w
        ≡ left spsc garbage connection_delay max_packet_count f' w'
      → R w w'
  unfolding on_datagram
  on_datagram-Follows [] f f' w w' h = let e : w ≡ w' = ground arith in subst (R w) e (idle w)
  on_datagram-Follows (b ∷ bs) f f' w w' h = on_message-Follows _ _ f' w w' h

  pub feed_loop-Follows :
      (ds : List (List ℕ)) (f f' : Run) (w w' : World (Stores spsc))
      → feed_loop spsc garbage connection_delay max_packet_count ds f w ≡ ok (some (f', w'))
      → R w w'
  unfolding feed_loop
  feed_loop-Follows [] f f' w w' h = let e : w ≡ w' = ground arith in subst (R w) e (idle w)
  feed_loop-Follows (d ∷ ds) f f' w w' h =
      let (f1, w1, e, k) =
        two_steps spsc garbage connection_delay max_packet_count d ds f f' w w' h in
      chain w w1 w' (on_datagram-Follows d f f1 w w1 e) (feed_loop-Follows ds f1 f' w1 w' k)

module _ (spsc : SpscQueue ConRevTradeDetails) (garbage : List ℕ)
    (connection_delay max_packet_count : ℕ) (P : Stores spsc → Type 0)
    (keeps : (m : BcastMsg) (s s' : Stores spsc)
      → P s
      → write_data_in_file1 spsc garbage connection_delay max_packet_count m s ≡ ok s'
      → P s') where
  -- What `WriteDataInFile1` keeps of the stores, the loop keeps.
  pub feed_loop-Keeps :
      (ds : List (List ℕ)) (f f' : State spsc garbage connection_delay max_packet_count)
      (w w' : World (Stores spsc))
      → P w.sink
      → feed_loop spsc garbage connection_delay max_packet_count ds f w ≡ ok (some (f', w'))
      → P w'.sink
  feed_loop-Keeps ds f f' w w' v h =
      feed_loop-Follows spsc garbage connection_delay max_packet_count
        (λ u u'. P u.sink → P u'.sink) (λ u p. p) (λ u v w f g p. g (f p))
        (λ m u s e p. keeps m u.sink s p e)
        (λ from to u u' e p.
          split_recovery_data_request-Keeps
            (write_data_in_file1 spsc garbage connection_delay max_packet_count) garbage
            connection_delay max_packet_count P keeps from to u u' p e)
        ds f f' w w' h v
