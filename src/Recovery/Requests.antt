-- ===== src/Recovery/Requests.antt =====
-- `ForceRecoveryPackets` and `SplitRecoveryDataRequest`, from what holds of each request.
use real_time_cr.Prelude.{
  ltb, ◌==◌, if◌then◌else◌, Bool-cases, length, Exec, ok, fault, ℕ, zero, suc, ◌^◌, ◌≡◌, inl, inr,
  true, some, List, arith, subst,
}
use real_time_cr.Message.{BcastMsg}
use real_time_cr.Recovery.Runs.{Follows, bind-ran, bind-Follows, if-Follows, pure-Follows}
use real_time_cr.Recovery.{
  Progress, World, M, force_loop, pure, recovery_packets, force_recovery_packets, split_loop,
  split_recovery_data_request, recover_block, no_progress,
}
use real_time_cr.Words.{add32, lt32, div32, sub32}
use real_time_cr.Recovery.Done.{again}

module _ {S : Type 0} (write : BcastMsg → S → Exec S) (garbage : List ℕ)
    (connection_delay max_packet_count : ℕ) (R : World S → World S → Type 0)
    (idle : (w : World S) → R w w) (chain : (u v w : World S) → R u v → R v w → R u w)
    (packets : (from to : ℕ) (p : Progress)
      → Follows R idle chain
          (recovery_packets write garbage connection_delay max_packet_count from to p)) where
  abbrev Holds : {A : Type 0} → M S A → Type 0
  Holds m = Follows R idle chain m

  same_world : (w w' : World S) → w ≡ w' → R w w'
  same_world w w' e = subst (R w) e (idle w)

  force_loop-Follows :
      (fuel from to : ℕ) (p : Progress)
      → Holds (force_loop write garbage connection_delay max_packet_count fuel from to p)
  unfolding Follows force_loop
  force_loop-Follows zero from to p w w' a h = elim (Bool-cases (p.last_seq_no == to)) [
    | inl done ↦ same_world w w' (ground arith)
    | inr more ↦ absurd (ground arith)
  ]
  force_loop-Follows (suc fuel) from to p w w' a h = elim (Bool-cases (p.last_seq_no == to)) [
    | inl done ↦ same_world w w' (ground arith)
    | inr more ↦
        let (r, w1, e, k) =
          bind-ran
            (recovery_packets write garbage connection_delay max_packet_count
              (add32 from p.recovery_count) to (record p { recovery_count = 0 }))
            (again write garbage connection_delay max_packet_count fuel from to p) w
            (rw more at h) in
        let step =
          packets (add32 from p.recovery_count) to (record p { recovery_count = 0 }) w w1 r e in
        elim (Bool-cases r.0) [
          | inl got ↦ chain w w1 w' step (same_world w1 w' (ground arith))
          | inr failed ↦ chain w w1 w' step (
              force_loop-Follows fuel from to
                (record {
                  recovery_count = add32 p.recovery_count r.1.recovery_count;
                  last_seq_no = r.1.last_seq_no;
                })
                w1 w' a (rw failed at k))
        ]
  ]

  force_recovery_packets-Follows :
      (from to : ℕ) (p : Progress)
      → Holds (force_recovery_packets write garbage connection_delay max_packet_count from to p)
  unfolding Follows force_recovery_packets
  force_recovery_packets-Follows from to p w w' a h = elim (Bool-cases (lt32 to from)) [
    | inl wrong ↦ same_world w w' (ground arith)
    | inr right ↦
        let (r, w1, e, k) =
          bind-ran
            (force_loop write garbage connection_delay max_packet_count (length w.attempts) from to
              p)
            (λ x. pure (true, x)) w (rw right at h) in
        chain w w1 w' (force_loop-Follows (length w.attempts) from to p w w1 r e)
          (same_world w1 w' (ground arith))
  ]

  recover_block-Follows :
      (from to : ℕ) → Holds (recover_block write garbage connection_delay max_packet_count from to)
  unfolding recover_block
  recover_block-Follows from to = bind-Follows R idle chain _ _ (packets from to no_progress) (λ r.
      if-Follows R idle chain r.0 _ _ (pure-Follows R idle chain r.1.last_seq_no) (
        bind-Follows R idle chain _ _ (force_recovery_packets-Follows from to r.1)
          (λ f. pure-Follows R idle chain f.1.last_seq_no)))

  split_loop-Follows :
      (rounds next upto to : ℕ)
      → Holds (split_loop write garbage connection_delay max_packet_count rounds next upto to)
  unfolding split_loop Follows
  split_loop-Follows zero next upto to w w' a h =
      let (r, w1, e, k) =
        bind-ran (recover_block write garbage connection_delay max_packet_count next to)
          (λ _. pure tt) w h in
      chain w w1 w' (recover_block-Follows next to w w1 r e) (same_world w1 w' (ground arith))
  split_loop-Follows (suc rounds) next upto to w w' a h =
      let upto' = add32 upto max_packet_count in
      let (last, w1, e, k) =
        bind-ran (recover_block write garbage connection_delay max_packet_count next upto')
          (λ last.
            if to == last
            then pure tt
            else split_loop write garbage connection_delay max_packet_count rounds (add32 upto' 1)
                upto' to)
          w h in
      let step = recover_block-Follows next upto' w w1 last e in
      elim (Bool-cases (to == last)) [
        | inl done ↦ let k1 = rw done at k in chain w w1 w' step (same_world w1 w' (ground arith))
        | inr more ↦
            chain w w1 w' step
              (split_loop-Follows rounds (add32 upto' 1) upto' to w1 w' a (rw more at k))
      ]

  -- What holds between the states before and after each request, holds between those before and after a call of
  -- `SplitRecoveryDataRequest` that returns, whatever the world answers.
  pub split_recovery_data_request-Follows :
      (from to : ℕ)
      → Holds (split_recovery_data_request write garbage connection_delay max_packet_count from to)
  unfolding split_recovery_data_request Follows
  split_recovery_data_request-Follows from to w w' a h = elim (Bool-cases (lt32 to from)) [
    | inl wrong ↦ same_world w w' (ground arith)
    | inr right ↦ go (div32 (sub32 to from) max_packet_count) (rw right at h)
  ]
    where
      go :
          (d : Exec ℕ)
          → elim d [
            | fault e ↦ fault e
            | ok full ↦
                split_loop write garbage connection_delay max_packet_count
                  (if ltb full (2 ^ 31) then full else 0)
                  from
                  from
                  to
                  w
          ]
            ≡ ok (some (a, w'))
          → R w w'
      go (fault e) k = cc
      go (ok full) k =
          split_loop-Follows (if ltb full (2 ^ 31) then full else 0) from from to w w' a k
