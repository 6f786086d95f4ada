-- ===== src/Recovery/Sockets.antt =====
-- What each step of the recovery manager opens and closes.
use real_time_cr.Prelude.{
  ◌==◌, Bool-cases, Exec, ok, fault, ℕ, ◌/◌, ◌≡◌, refl, sym, ap, ◌∙◌, inl, inr, Bool, false, not,
  ◌&&◌, Option, none, some, List, [], ◌∷◌, ◌++◌, arith,
}
use real_time_cr.Recovery.{
  World, pure, ask, send_request, create_socket, connect_server, recovery_packets, receive, wait,
  Recv, Attempt, Progress, chunk, reader, progress_of, requested, shut, closed, broken, opened,
  connected, slept, split_recovery_data_request, close_socket,
}
use real_time_cr.Calls.{is_negative, without}
use real_time_cr.Message.{BcastMsg}
use real_time_cr.Words.{lt64, sub64}
use real_time_cr.Recovery.Packets.{get_packet_from_message, Parsed, kept, stopped}
use real_time_cr.Recovery.Runs.{Follows, bind-ran}
use real_time_cr.Recovery.Requests.{split_recovery_data_request-Follows}
use real_time_cr.Recovery.Leaks.{
  open_after, add_leaked, open_after-append, without_first, Leaves, Leaves-idle, Leaves-chain,
}

module _ {S : Type 0} (write : BcastMsg → S → Exec S) (garbage : List ℕ)
    (connection_delay max_packet_count : ℕ) where
  -- A run of the loop of `recv` that returns has closed the socket, and that is all.
  record Closes (w w' : World S) : Type 0 where
    rest : w'.attempts ≡ w.attempts
    noted : w'.log ≡ w.log ++ (shut w.recovery_sock ∷ [])

  receive-Closes :
      (rs : List Recv) (pending : List ℕ) (p : Progress) (w w' : World S) (x : Bool × Progress)
      → receive write garbage connection_delay max_packet_count rs pending p w ≡ ok (some (x, w'))
      → Closes w w'
  unfolding receive
  receive-Closes [] pending p w w' x h = absurd (ground arith)
  receive-Closes (closed ∷ rs) pending p w w' x h = record {
    rest = ground arith;
    noted = ground arith;
  }
  receive-Closes (broken ∷ rs) pending p w w' x h = record {
    rest = ground arith;
    noted = ground arith;
  }
  receive-Closes (chunk bytes ∷ rs) pending p w w' x h =
      go (λ rest p0 w0. receive-Closes rs rest p0 w0 w' x)
        (get_packet_from_message write garbage (pending ++ bytes)
          (reader write garbage connection_delay max_packet_count p w))
        h
    where
      go :
          ((rest : List ℕ) (p0 : Progress) (w0 : World S)
            → receive write garbage connection_delay max_packet_count rs rest p0 w0
              ≡ ok (some (x, w'))
            → Closes w0 w')
          → (t : Exec (Option (Parsed S)))
          → elim t [
            | fault e ↦ fault e
            | ok o ↦ elim o [
              | none ↦ ok none
              | some y ↦ elim y [
                | kept rest r ↦
                    receive write garbage connection_delay max_packet_count rs rest
                      (progress_of write garbage connection_delay max_packet_count r)
                      (record w { sink = r.sink })
                | stopped r ↦ ok (
                    some (
                      (false, progress_of write garbage connection_delay max_packet_count r),
                      record w { sink = r.sink; log = w.log ++ (shut w.recovery_sock ∷ []) },
                    ))
              ]
            ]
          ]
            ≡ ok (some (x, w'))
          → Closes w w'
      go ih (fault e) k = absurd (ground arith)
      go ih (ok none) k = absurd (ground arith)
      go ih (ok (some (kept rest r))) k =
          let c = ih rest _ (record w { sink = r.sink }) k in
          record { rest = c.rest; noted = c.noted }
      go ih (ok (some (stopped r))) k = record { rest = ground arith; noted = ground arith }

  send_request-log :
      (a : Attempt) (from to : ℕ) (p : Progress) (w w' : World S) (r : Bool × Progress)
      → send_request write garbage connection_delay max_packet_count a from to p w
        ≡ ok (some (r, w'))
      → (w'.attempts ≡ w.attempts)
        × (open_after w'.log [] ≡ without w.recovery_sock (open_after w.log []))
  unfolding send_request
  send_request-log a from to p w w' r h = elim (Bool-cases (not a.request_sent)) [
    | inl failed ↦
        let same : close_socket write garbage connection_delay max_packet_count w ≡ w' =
          let k = rw failed at h in ground arith in
        (
          ap (λ x. x.attempts) (sym same),
          rw (← same) (open_after-append w.log (shut w.recovery_sock ∷ []) []),
        )
    | inr sent ↦
        let w0 : World S = record w {
          last_recovery_time = a.clock_after / 1000;
          log = w.log ++ (requested from to ∷ []);
        } in
        let (x, w1, e, k) =
          bind-ran (receive write garbage connection_delay max_packet_count a.received [] p)
            (λ y. pure (y.0 && to == y.1.last_seq_no, y.1)) w0 (rw sent at h) in
        let c = receive-Closes a.received [] p w0 w1 x e in
        let same : w1 ≡ w' = ground arith in
        (
          ap (λ y. y.attempts) (sym same) ∙ c.rest,
          ap (λ y. open_after y.log []) (sym same)
              ∙ ap (λ l. open_after l []) c.noted
              ∙ open_after-append (w.log ++ (requested from to ∷ [])) (shut w.recovery_sock ∷ []) []
              ∙ ap (without w.recovery_sock) (open_after-append w.log (requested from to ∷ []) []),
        )
  ]

  -- What a request does with the answer `a`, for a state from which that has been taken.
  ask-Leaves :
      (a : Attempt) (from to : ℕ) (p : Progress) (w w' : World S) (r : Bool × Progress)
      → ask write garbage connection_delay max_packet_count a from to p w ≡ ok (some (r, w'))
      → (w'.attempts ≡ w.attempts)
        × (open_after w'.log [] ≡ add_leaked (a ∷ []) (open_after w.log []))
  unfolding ask create_socket connect_server
  ask-Leaves a from to p w w' r h = elim (Bool-cases (is_negative a.socket)) [
    | inl none_made ↦
        let k = rw none_made at h in
        let e1 : w.attempts ≡ w'.attempts = ground arith in
        let e2 : w.log ≡ w'.log = ground arith in
        (sym e1, rw (none_made) (ap (λ l. open_after l []) (sym e2)))
    | inr made ↦ elim (Bool-cases a.server_connected) [
      | inr failed ↦
          let k = rw (made, failed) at h in
          let e1 : w.attempts ≡ w'.attempts = ground arith in
          let e2 : w.log ++ (opened a.socket ∷ []) ≡ w'.log = ground arith in
          (
            sym e1,
            rw (made, failed)
                (ap (λ l. open_after l []) (sym e2)
                  ∙ open_after-append w.log (opened a.socket ∷ []) []),
          )
      | inl there ↦
          let w2 : World S = record w {
            recovery_sock = a.socket;
            log = (w.log ++ (opened a.socket ∷ [])) ++ (connected a.socket ∷ []);
          } in
          let (e1, e2) = send_request-log a from to p w2 w' r (rw (made, there) at h) in
          (
            e1,
            rw (made, there)
                (e2
                  ∙ ap (without a.socket) (
                      open_after-append (w.log ++ (opened a.socket ∷ [])) (connected a.socket ∷ [])
                        []
                      ∙ open_after-append w.log (opened a.socket ∷ []) [])
                  ∙ without_first a.socket (open_after w.log [])),
          )
    ]
  ]

  -- The wait changes neither the answers to come nor what is open.
  wait-Leaves :
      (a : Attempt) (w : World S)
      → let w1 = wait write garbage connection_delay max_packet_count a w in
        (w1.attempts ≡ w.attempts) × (open_after w1.log [] ≡ open_after w.log [])
  unfolding wait
  wait-Leaves a w =
      elim (Bool-cases
        (lt64 (sub64 (a.clock_before / 1000) w.last_recovery_time) connection_delay)) [
          | inl soon ↦ rw soon (refl, open_after-append w.log (slept _ ∷ []) [])
          | inr late ↦ rw late (refl, refl)
        ]

  recovery_packets-Leaves :
      (from to : ℕ) (p : Progress)
      → Follows Leaves Leaves-idle Leaves-chain
          (recovery_packets write garbage connection_delay max_packet_count from to p)
  unfolding Follows recovery_packets
  recovery_packets-Leaves from to p w w' r h = go w.attempts refl h
    where
      go :
          (l : List Attempt)
          → w.attempts ≡ l
          → elim l [
            | [] ↦ ok none
            | a ∷ rest ↦ ask write garbage connection_delay max_packet_count a from to p (
                wait write garbage connection_delay max_packet_count a
                  (record w { attempts = rest }))
          ]
            ≡ ok (some (r, w'))
          → Leaves w w'
      go [] e k = absurd (ground arith)
      go (a ∷ rest) e k =
          let (e1, o1) = wait-Leaves a (record w { attempts = rest }) in
          let (e2, o2) =
            ask-Leaves a from to p
              (wait write garbage connection_delay max_packet_count a
                (record w { attempts = rest }))
              w' r k in
          record {
            used = a ∷ [];
            used_up = e ∙ ap (λ l. a ∷ l) (sym (e2 ∙ e1));
            left_open = o2 ∙ ap (add_leaked (a ∷ [])) o1;
          }

  -- However the calls of the world come out, a call of `SplitRecoveryDataRequest` that returns has closed every
  -- socket that it has opened but those of the attempts whose connection has failed.
  pub split_recovery_data_request-Leaves :
      (from to : ℕ) (w w' : World S)
      → split_recovery_data_request write garbage connection_delay max_packet_count from to w
        ≡ ok (some (tt, w'))
      → Leaves w w'
  unfolding Follows
  split_recovery_data_request-Leaves from to w w' h =
      split_recovery_data_request-Follows write garbage connection_delay max_packet_count Leaves
        Leaves-idle Leaves-chain recovery_packets-Leaves from to w w' tt h
