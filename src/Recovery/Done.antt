-- ===== src/Recovery/Done.antt =====
-- What a return of the requests says of the messages received.
use real_time_cr.Prelude.{
  ◌==◌, if◌then◌else◌, Bool-cases, length, Exec, ok, ℕ, zero, suc, ◌/◌, ◌≡◌, ◌⊎◌, inl, inr, Bool,
  true, false, not, ◌&&◌, none, some, List, [], ◌∷◌, ◌++◌, arith,
}
use real_time_cr.Message.{BcastMsg}
use real_time_cr.Recovery.{
  ◌>>=◌, ask, send_request, create_socket, connect_server, Attempt, Progress, World, requested,
  receive, pure, recover_block, force_loop, recovery_packets, M, force_recovery_packets, lt32, wait,
  add32, no_progress,
}
use real_time_cr.Recovery.Runs.{bind-ran}
use real_time_cr.Words.{add32, lt32}

module _ {S : Type 0} (write : BcastMsg → S → Exec S) (garbage : List ℕ)
    (connection_delay max_packet_count : ℕ) where
  -- What a round of the loop does with its result.
  abbrev pub again : ℕ → ℕ → ℕ → Progress → Bool × Progress → M S Progress
  again fuel from to p r =
      let q : Progress = record {
        recovery_count = add32 p.recovery_count r.1.recovery_count;
        last_seq_no = r.1.last_seq_no;
      } in
      if r.0
      then pure q
      else force_loop write garbage connection_delay max_packet_count fuel from to q

  send_request_done :
      (a : Attempt) (from to : ℕ) (p : Progress) (w w' : World S) (r : Bool × Progress)
      → send_request write garbage connection_delay max_packet_count a from to p w
        ≡ ok (some (r, w'))
      → r.0 ≡ true
      → r.1.last_seq_no ≡ to
  unfolding send_request
  send_request_done a from to p w w' r h good = elim (Bool-cases (not a.request_sent)) [
    | inl failed ↦ absurd (ground arith)
    | inr sent ↦
        let w0 = record w {
          last_recovery_time = a.clock_after / 1000;
          log = w.log ++ (requested from to ∷ []);
        } in
        let (x, w1, e, k) =
          bind-ran (receive write garbage connection_delay max_packet_count a.received [] p)
            (λ y. pure (y.0 && to == y.1.last_seq_no, y.1)) w0 (rw sent at h) in
        ground arith
  ]

  ask_done :
      (a : Attempt) (from to : ℕ) (p : Progress) (w w' : World S) (r : Bool × Progress)
      → ask write garbage connection_delay max_packet_count a from to p w ≡ ok (some (r, w'))
      → r.0 ≡ true
      → r.1.last_seq_no ≡ to
  unfolding ask
  ask_done a from to p w w' r h good =
      let (created, w1) = create_socket write garbage connection_delay max_packet_count a w in
      let (there, w2) = connect_server write garbage connection_delay max_packet_count a w1 in
      elim (Bool-cases (not created)) [
        | inl failed ↦ absurd (ground arith)
        | inr made ↦ elim (Bool-cases (not there)) [
          | inl failed ↦ absurd (ground arith)
          | inr on ↦ send_request_done a from to p w2 w' r (rw (made, on) at h) good
        ]
      ]

  recovery_packets_done :
      (from to : ℕ) (p : Progress) (w w' : World S) (r : Bool × Progress)
      → recovery_packets write garbage connection_delay max_packet_count from to p w
        ≡ ok (some (r, w'))
      → r.0 ≡ true
      → r.1.last_seq_no ≡ to
  unfolding recovery_packets
  recovery_packets_done from to p w w' r h good = go w.attempts h
    where
      go :
          (l : List Attempt)
          → elim l [
            | [] ↦ ok none
            | a ∷ rest ↦ ask write garbage connection_delay max_packet_count a from to p (
                wait write garbage connection_delay max_packet_count a
                  (record w { attempts = rest }))
          ]
            ≡ ok (some (r, w'))
          → r.1.last_seq_no ≡ to
      go [] k = cc
      go (a ∷ rest) k =
          ask_done a from to p
            (wait write garbage connection_delay max_packet_count a (record w { attempts = rest }))
            w' r k good

  force_loop_done :
      (fuel from to : ℕ) (p q : Progress) (w w' : World S)
      → force_loop write garbage connection_delay max_packet_count fuel from to p w
        ≡ ok (some (q, w'))
      → q.last_seq_no ≡ to
  unfolding force_loop
  force_loop_done zero from to p q w w' h = ground arith
  force_loop_done (suc fuel) from to p q w w' h = elim (Bool-cases (p.last_seq_no == to)) [
    | inl done ↦ ground arith
    | inr more ↦
        let (r, w1, e, k) =
          bind-ran
            (recovery_packets write garbage connection_delay max_packet_count
              (add32 from p.recovery_count) to (record p { recovery_count = 0 }))
            (again fuel from to p) w (rw more at h) in
        elim (Bool-cases r.0) [
          | inl got ↦
              let last =
                recovery_packets_done (add32 from p.recovery_count) to
                  (record p { recovery_count = 0 }) w w1 r e got in
              let k1 = rw got at k in ground arith
          | inr failed ↦
              force_loop_done fuel from to
                (record {
                  recovery_count = add32 p.recovery_count r.1.recovery_count;
                  last_seq_no = r.1.last_seq_no;
                })
                q w1 w' (rw failed at k)
        ]
  ]

  -- A call of `ForceRecoveryPackets` that returns has either refused a range whose end lies before its
  -- start, or received the last message of the range.
  pub force_recovery_packets_done :
      (from to : ℕ) (p q : Progress) (good : Bool) (w w' : World S)
      → force_recovery_packets write garbage connection_delay max_packet_count from to p w
        ≡ ok (some ((good, q), w'))
      → ((lt32 to from ≡ true) × (good ≡ false) × (q ≡ p))
        ⊎ ((lt32 to from ≡ false) × (good ≡ true) × (q.last_seq_no ≡ to))
  unfolding force_recovery_packets
  force_recovery_packets_done from to p q good w w' h = elim (Bool-cases (lt32 to from)) [
    | inl wrong ↦ inl (wrong, ground arith, ground arith)
    | inr right ↦
        let (x, w1, e, k) =
          bind-ran
            (force_loop write garbage connection_delay max_packet_count (length w.attempts) from to
              p)
            (λ y. pure (true, y)) w (rw right at h) in
        let last = force_loop_done (length w.attempts) from to p x w w1 e in
        inr (right, ground arith, ground arith)
  ]

  -- For a range whose end does not lie before its start, a block that is recovered, by force if need
  -- be, ends with the last message of the range received.
  pub recover_block_done :
      (from to last : ℕ) (w w' : World S)
      → lt32 to from ≡ false
      → recover_block write garbage connection_delay max_packet_count from to w
        ≡ ok (some (last, w'))
      → last ≡ to
  unfolding recover_block
  recover_block_done from to last w w' right h =
      let (r, w1, e, k) =
        bind-ran
          (recovery_packets write garbage connection_delay max_packet_count from to no_progress)
          (λ r.
            if r.0
            then pure r.1.last_seq_no
            else (force_recovery_packets write garbage connection_delay max_packet_count from to r.1
                >>= λ f. pure f.1.last_seq_no))
          w h in
      elim (Bool-cases r.0) [
        | inl got ↦
            let known = recovery_packets_done from to no_progress w w1 r e got in
            let k1 = rw got at k in ground arith
        | inr failed ↦
            let (f, w2, e2, k2) =
              bind-ran
                (force_recovery_packets write garbage connection_delay max_packet_count from to r.1)
                (λ f. pure f.1.last_seq_no) w1 (rw failed at k) in
            elim (force_recovery_packets_done from to r.1 f.1 f.0 w1 w2 e2) [
              | inl (wrong, _, _) ↦ absurd (ground arith)
              | inr (_, _, done) ↦ ground arith
            ]
      ]
