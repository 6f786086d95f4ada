-- ===== src/Feed/Lossless.antt =====
-- Messages that the feed loses and the recovery server has.
use real_time_cr.Prelude.{
  length, get_or, All, All-append, length-append, Exec, ok, bind-eq-ok, ℕ, ◌+◌, ◌-◌, ◌^◌, ◌<◌, ◌≡◌,
  refl, sym, ap, ◌∙◌, some, List, [], ◌∷◌, ◌++◌, arith,
}
use real_time_cr.ShmQueue.{SpscQueue}
use real_time_cr.Writer.Groups.{ConRevTradeDetails}
use real_time_cr.Writer.{Stores}
use real_time_cr.Feed.{write_data_in_file1, on_datagram, feed_loop}
use real_time_cr.Feed.Steps.{State}
use real_time_cr.Feed.Blind.{write_data_in_file1-IsBlind, seq_no-assign}
use real_time_cr.Message.{BcastMsg, read_bcast_msg, assign, field}
use real_time_cr.Recovery.{World, Attempt, split_recovery_data_request}
use real_time_cr.Recovery.Answer.{IsMessage, size_of, size_bounds, write_message, write_messages}
use real_time_cr.Recovery.Blocks.{
  Block, attempts_of, messages_of, EndAt, write_messages-append,
  split_recovery_data_request-delivers,
}
use real_time_cr.Feed.Single.{written, on_next_message, on_gap_message}

-- Each message has the number behind the one before.
abbrev pub AreConsecutive : ℕ → List (List ℕ) → Type 0
AreConsecutive last [] = Unit
AreConsecutive last (m ∷ ms) = (field 4 4 m ≡ last + 1) × AreConsecutive (last + 1) ms

not_empty : IsMessage [] → ⊥
unfolding size_of
not_empty h = ground arith

module _ (spsc : SpscQueue ConRevTradeDetails) (garbage : List ℕ)
    (connection_delay max_packet_count : ℕ) where
  abbrev write : BcastMsg → Stores spsc → Exec (Stores spsc)
  write = write_data_in_file1 spsc garbage connection_delay max_packet_count

  first_one :
      (d : List ℕ) (ds : List (List ℕ))
      (f f1 : State spsc garbage connection_delay max_packet_count) (w w1 : World (Stores spsc))
      → on_datagram spsc garbage connection_delay max_packet_count d f w ≡ ok (some (f1, w1))
      → feed_loop spsc garbage connection_delay max_packet_count (d ∷ ds) f w
        ≡ feed_loop spsc garbage connection_delay max_packet_count ds f1 w1
  unfolding feed_loop
  first_one d ds f f1 w w1 e = rw (feed_loop, e) refl

  -- Messages that arrive one behind the other are written one behind the other.
  fed :
      (ms : List (List ℕ)) (f : State spsc garbage connection_delay max_packet_count)
      (w : World (Stores spsc)) (s' : Stores spsc)
      → All IsMessage ms
      → AreConsecutive f.last_seq_no ms
      → f.last_seq_no + length ms < 2 ^ 31
      → write_messages write garbage ms w.sink ≡ ok s'
      → (f' : State spsc garbage connection_delay max_packet_count) × (feed_loop spsc garbage
            connection_delay max_packet_count ms f w
          ≡ ok (some (f', record w { sink = s' })))
        × (f'.last_seq_no ≡ f.last_seq_no + length ms)
  unfolding feed_loop on_datagram write_messages
  fed [] f w s' all run small h =
      let same : w.sink ≡ s' = ground arith in
      (f, ap (λ s. ok (some (f, record w { sink = s }))) same, omega arith)
  fed ([] ∷ ms) f w s' all run small h = absurd (not_empty all.0)
  fed ((b ∷ bs) ∷ ms) f w s' (is, all) (number, run) small h =
      let m = b ∷ bs in
      let u = assign (length m) m f.union in
      let (low, high) = size_bounds (get_or m 8 0) (length m) is in
      let (s1, k, l) =
        bind-eq-ok (write_message write garbage m w.sink) (write_messages write garbage ms) h in
      let seq : (read_bcast_msg u).seq_no ≡ f.last_seq_no + 1 =
        seq_no-assign m f.union (omega arith) ∙ number in
      let once =
        on_next_message spsc garbage connection_delay max_packet_count (read_bcast_msg u)
          (record f { union = u }) w s1 seq (omega arith)
          (written spsc garbage connection_delay max_packet_count m f.union w.sink s1 is k)
        ∙ ap (λ n. ok (some (record f { union = u; last_seq_no = n }, record w { sink = s1 })))
            seq in
      let f1 : State spsc garbage connection_delay max_packet_count = record f {
        union = u;
        last_seq_no = f.last_seq_no + 1;
      } in
      let w1 : World (Stores spsc) = record w { sink = s1 } in
      let (f', rest, last) = fed ms f1 w1 s' all run (omega arith) l in
      (f', first_one m ms f f1 w w1 once ∙ rest, omega (arith, last))

  messages_of-All : (bs : List Block) → All IsMessage (messages_of bs)
  messages_of-All [] = tt
  messages_of-All (b ∷ bs) =
      All-append IsMessage b.messages (messages_of bs) b.is_answer.whole (messages_of-All bs)

  last_consecutive :
      (ms : List (List ℕ)) (d : List ℕ) (last : ℕ)
      → AreConsecutive last (ms ++ (d ∷ []))
      → field 4 4 d ≡ last + length ms + 1
  last_consecutive [] d last run = omega (arith, run.0)
  last_consecutive (m ∷ ms) d last run = omega (arith, last_consecutive ms d (last + 1) run.1)

  -- A datagram behind a gap, with an answer to each request.
  recovered :
      (bs : List Block) (more : List Attempt) (d : List ℕ)
      (f : State spsc garbage connection_delay max_packet_count) (w : World (Stores spsc))
      (s1 s' : Stores spsc)
      → 0 < max_packet_count
      → max_packet_count < 2 ^ 31
      → 0 < length (messages_of bs)
      → IsMessage d
      → field 4 4 d ≡ f.last_seq_no + length (messages_of bs) + 1
      → f.last_seq_no + length (messages_of bs) + 1 < 2 ^ 31
      → EndAt max_packet_count (f.last_seq_no + 1) (f.last_seq_no + length (messages_of bs)) bs
      → w.attempts ≡ attempts_of bs ++ more
      → write_messages write garbage (messages_of bs) w.sink ≡ ok s1
      → write_message write garbage d s1 ≡ ok s'
      → (f2 : State spsc garbage connection_delay max_packet_count) × (w2 : World (Stores spsc))
        × (on_datagram spsc garbage connection_delay max_packet_count d f w ≡ ok (some (f2, w2)))
        × (w2.sink ≡ s')
        × (f2.last_seq_no ≡ f.last_seq_no + length (messages_of bs) + 1)
  unfolding on_datagram
  recovered bs more [] f w s1 s' pos max some_lost is number small ends from_w h h1 =
      absurd (not_empty is)
  recovered bs more (b ∷ tail) f w s1 s' pos max some_lost is number small ends from_w h h1 =
      let d = b ∷ tail in
      let u = assign (length d) d f.union in
      let n = f.last_seq_no + length (messages_of bs) in
      let (low, high) = size_bounds (get_or d 8 0) (length d) is in
      let seq : (read_bcast_msg u).seq_no ≡ n + 1 =
        seq_no-assign d f.union (omega arith) ∙ number in
      let (w1, run, sink, left) =
        split_recovery_data_request-delivers write garbage connection_delay max_packet_count bs more
          (f.last_seq_no + 1) n w s1
          (write_data_in_file1-IsBlind spsc garbage connection_delay max_packet_count) pos max
          (omega arith) (omega arith) ends from_w h in
      let to_eq : n ≡ (read_bcast_msg u).seq_no - 1 = omega arith in
      let run1 : split_recovery_data_request write garbage connection_delay max_packet_count
            (f.last_seq_no + 1) ((read_bcast_msg u).seq_no - 1) w
          ≡ ok (some (tt, w1)) =
        ap
          (λ t.
            split_recovery_data_request write garbage connection_delay max_packet_count
              (f.last_seq_no + 1) t w)
          (sym to_eq)
        ∙ run in
      (
        record f { union = u; last_seq_no = (read_bcast_msg u).seq_no },
        record w1 { sink = s' },
        on_gap_message spsc garbage connection_delay max_packet_count (read_bcast_msg u)
            (record f { union = u }) w w1 s' (omega arith) (omega arith) run1
            (ap (write (read_bcast_msg u)) sink
              ∙ written spsc garbage connection_delay max_packet_count d f.union s1 s' is h1),
        refl,
        seq,
      )

  -- The datagram `d` arrives behind a loss of at least one message, and the recovery server answers each request
  -- with the messages that are missing, up to the last one asked for, in pieces of which the first holds the
  -- response and none leaves more bytes of a cut message over than stand in front of them in the buffer, unless that
  -- is all there is, so that no memcpy overlaps. If handling all these messages one by one makes no fault, the loop
  -- over `d` alone and the loop over all of them come back with the same stores, those that handling the messages in
  -- order leaves, and with the same last number.
  pub feed_loop-lossless :
      (bs : List Block) (more : List Attempt) (d : List ℕ)
      (f : State spsc garbage connection_delay max_packet_count) (w : World (Stores spsc))
      (s' : Stores spsc)
      → 0 < max_packet_count
      → max_packet_count < 2 ^ 31
      → 0 < length (messages_of bs)
      → IsMessage d
      → AreConsecutive f.last_seq_no (messages_of bs ++ (d ∷ []))
      → f.last_seq_no + length (messages_of bs) + 1 < 2 ^ 31
      → EndAt max_packet_count (f.last_seq_no + 1) (f.last_seq_no + length (messages_of bs)) bs
      → w.attempts ≡ attempts_of bs ++ more
      → write_messages write garbage (messages_of bs ++ (d ∷ [])) w.sink ≡ ok s'
      → (f1 f2 : State spsc garbage connection_delay max_packet_count) × (w1 w2 : World
          (Stores spsc))
        × (feed_loop spsc garbage connection_delay max_packet_count (messages_of bs ++ (d ∷ [])) f w
            ≡ ok (some (f1, w1)))
        × (feed_loop spsc garbage connection_delay max_packet_count (d ∷ []) f w
            ≡ ok (some (f2, w2)))
        × (w1.sink ≡ s')
        × (w2.sink ≡ s')
        × (f1.last_seq_no ≡ f.last_seq_no + length (messages_of bs) + 1)
        × (f2.last_seq_no ≡ f.last_seq_no + length (messages_of bs) + 1)
  unfolding write_messages feed_loop
  feed_loop-lossless bs more d f w s' pos max some_lost is run small ends from_w h =
      let ms = messages_of bs in
      let total = length-append ms (d ∷ []) in
      let (s1, h1, h2) =
        write_messages-append write garbage connection_delay max_packet_count ms (d ∷ []) w.sink s'
          h in
      let (s2, h3, h4) = bind-eq-ok (write_message write garbage d s1) (λ s. ok s) h2 in
      let same : s2 ≡ s' = ground arith in
      let (f1, fed_run, last) =
        fed (ms ++ (d ∷ [])) f w s' (All-append IsMessage ms (d ∷ []) (messages_of-All bs) (is, tt))
          run (omega (arith, total)) h in
      let (f2, w2, run2, sink, last2) =
        recovered bs more d f w s1 s' pos max some_lost is (last_consecutive ms d f.last_seq_no run)
          small ends from_w h1 (h3 ∙ ap (λ s. ok s) same) in
      (
        f1,
        f2,
        record w { sink = s' },
        w2,
        fed_run,
        first_one d [] f f2 w w2 run2,
        refl,
        sink,
        omega (arith, last, total),
        last2,
      )
