-- ===== src/Recovery/Sink.antt =====
-- What `WriteDataInFile1` keeps of the state behind it, the requests keep.
use real_time_cr.Prelude.{
  ◌==◌, Bool-cases, length, Exec, ok, fault, ℕ, suc, ◌/◌, ◌≡◌, refl, inl, inr, false, not, ◌&&◌,
  Option, none, some, List, [], ◌∷◌, ◌++◌, arith, subst, sym, ◌∙◌,
}
use real_time_cr.Recovery.{
  M, World, pure, ask, send_request, create_socket, connect_server, recovery_packets, receive, wait,
  Recv, Attempt, Progress, chunk, reader, progress_of, requested, shut, closed, broken,
  split_recovery_data_request,
}
use real_time_cr.Message.{BcastMsg}
use real_time_cr.Recovery.Packets.{
  Reader, get_packet_from_message, read_packets, Parsed, kept, stopped,
}
use real_time_cr.Recovery.Preserved.{loop-keeps, sink_of}
use real_time_cr.Recovery.Moved.{read_packets-eq-some}
use real_time_cr.Recovery.Runs.{Follows, bind-ran}
use real_time_cr.Recovery.Requests.{split_recovery_data_request-Follows}

module _ {S : Type 0} (write : BcastMsg → S → Exec S) (garbage : List ℕ)
    (connection_delay max_packet_count : ℕ) (P : S → Type 0)
    (keeps : (m : BcastMsg) (s s' : S) → P s → write m s ≡ ok s' → P s') where
  -- The state behind a run that returns has the property, if it had it before.
  abbrev KeepsSink : World S → World S → Type 0
  KeepsSink w w' = P w.sink → P w'.sink

  abbrev Keeps : {A : Type 0} → M S A → Type 0
  Keeps m = Follows KeepsSink (λ w p. p) (λ u v w f g p. g (f p)) m

  left_sink : (w w' : World S) → w.sink ≡ w'.sink → KeepsSink w w'
  left_sink w w' e = subst P e

  abbrev fresh : Progress → World S → Reader S
  fresh p w = reader write garbage connection_delay max_packet_count p w

  kept_sink :
      (bytes : List ℕ) (r : Reader S) (q : Parsed S)
      → P r.sink
      → get_packet_from_message write garbage bytes r ≡ ok (some q)
      → P (sink_of write P keeps q)
  unfolding read_packets
  kept_sink bytes r q p h =
      loop-keeps write P keeps (suc (length bytes)) bytes (record r { union = garbage }) q p
        (read_packets-eq-some write garbage bytes r q h)

  receive-Keeps :
      (rs : List Recv) (pending : List ℕ) (p : Progress)
      → Keeps (receive write garbage connection_delay max_packet_count rs pending p)
  unfolding Follows receive
  receive-Keeps [] pending p w w' a h q = cc
  receive-Keeps (closed ∷ rs) pending p w w' a h q = left_sink w w' (ground arith) q
  receive-Keeps (broken ∷ rs) pending p w w' a h q = left_sink w w' (ground arith) q
  receive-Keeps (chunk bytes ∷ rs) pending p w w' a h q =
      go (λ rest p0 w0. receive-Keeps rs rest p0 w0 w' a)
        (get_packet_from_message write garbage (pending ++ bytes) (fresh p w)) refl h
    where
      go :
          ((rest : List ℕ) (p0 : Progress) (w0 : World S)
            → receive write garbage connection_delay max_packet_count rs rest p0 w0
              ≡ ok (some (a, w'))
            → P w0.sink
            → P w'.sink)
          → (x : Exec (Option (Parsed S)))
          → get_packet_from_message write garbage (pending ++ bytes) (fresh p w) ≡ x
          → elim x [
            | fault e ↦ fault e
            | ok o ↦ elim o [
              | none ↦ ok none
              | some y ↦ elim y [
                | kept rest r ↦
                    receive write garbage connection_delay max_packet_count rs rest
                      (progress_of write garbage connection_delay max_packet_count r)
                      (record w { sink = r.sink })
                | stopped r ↦ ok (
                    some (
                      (false, progress_of write garbage connection_delay max_packet_count r),
                      record w { sink = r.sink; log = w.log ++ (shut w.recovery_sock ∷ []) },
                    ))
              ]
            ]
          ]
            ≡ ok (some (a, w'))
          → P w'.sink
      go ih (fault e) eq k = cc
      go ih (ok none) eq k = cc
      go ih (ok (some (kept rest r))) eq k =
          ih rest _ (record w { sink = r.sink }) k
            (kept_sink (pending ++ bytes) (fresh p w) (kept rest r) q eq)
      go ih (ok (some (stopped r))) eq k =
          let e : r.sink ≡ w'.sink = ground arith in
          subst P e (kept_sink (pending ++ bytes) (fresh p w) (stopped r) q eq)

  send_request-Keeps :
      (a : Attempt) (from to : ℕ) (p : Progress)
      → Keeps (send_request write garbage connection_delay max_packet_count a from to p)
  unfolding Follows send_request
  send_request-Keeps a from to p w w' r h = elim (Bool-cases (not a.request_sent)) [
    | inl failed ↦ left_sink w w' (ground arith)
    | inr sent ↦
        let w0 = record w {
          last_recovery_time = a.clock_after / 1000;
          log = w.log ++ (requested from to ∷ []);
        } in
        let (x, w1, e, k) =
          bind-ran (receive write garbage connection_delay max_packet_count a.received [] p)
            (λ y. pure (y.0 && to == y.1.last_seq_no, y.1)) w0 (rw sent at h) in
        let same : w1.sink ≡ w'.sink = ground arith in
        λ q. left_sink w1 w' same (receive-Keeps a.received [] p w0 w1 x e q)
  ]

  socket-sink :
      (a : Attempt) (w : World S)
      → (create_socket write garbage connection_delay max_packet_count a w).1.sink ≡ w.sink
  unfolding create_socket
  socket-sink a w = ground arith

  server-sink :
      (a : Attempt) (w : World S)
      → (connect_server write garbage connection_delay max_packet_count a w).1.sink ≡ w.sink
  unfolding connect_server
  server-sink a w = ground arith

  ask-Keeps :
      (a : Attempt) (from to : ℕ) (p : Progress)
      → Keeps (ask write garbage connection_delay max_packet_count a from to p)
  unfolding Follows ask
  ask-Keeps a from to p w w' r h =
      let (created, w1) = create_socket write garbage connection_delay max_packet_count a w in
      let (there, w2) = connect_server write garbage connection_delay max_packet_count a w1 in
      let e1 : w.sink ≡ w1.sink = sym (socket-sink a w) in
      let e2 : w.sink ≡ w2.sink = e1 ∙ sym (server-sink a w1) in
      elim (Bool-cases (not created)) [
        | inl failed ↦
            let k = rw failed at h in
            let same : w1.sink ≡ w'.sink = ground arith in left_sink w w' (e1 ∙ same)
        | inr made ↦ elim (Bool-cases (not there)) [
          | inl failed ↦
              let k = rw (made, failed) at h in
              let same : w2.sink ≡ w'.sink = ground arith in left_sink w w' (e2 ∙ same)
          | inr on ↦ λ q. send_request-Keeps a from to p w2 w' r (rw (made, on) at h) (subst P e2 q)
        ]
      ]

  wait-sink :
      (a : Attempt) (w : World S)
      → (wait write garbage connection_delay max_packet_count a w).sink ≡ w.sink
  unfolding wait
  wait-sink a w = ground arith

  recovery_packets-Keeps :
      (from to : ℕ) (p : Progress)
      → Keeps (recovery_packets write garbage connection_delay max_packet_count from to p)
  unfolding Follows recovery_packets
  recovery_packets-Keeps from to p w w' r h = go w.attempts h
    where
      go :
          (l : List Attempt)
          → elim l [
            | [] ↦ ok none
            | a ∷ rest ↦ ask write garbage connection_delay max_packet_count a from to p (
                wait write garbage connection_delay max_packet_count a
                  (record w { attempts = rest }))
          ]
            ≡ ok (some (r, w'))
          → KeepsSink w w'
      go [] k = cc
      go (a ∷ rest) k = λ q.
          ask-Keeps a from to p
            (wait write garbage connection_delay max_packet_count a (record w { attempts = rest }))
            w' r k (rw (wait-sink a (record w { attempts = rest })) q)

  -- What every call of `WriteDataInFile1` keeps of the state behind it, a call of
  -- `SplitRecoveryDataRequest` that returns keeps, whatever the world answers.
  pub split_recovery_data_request-Keeps :
      (from to : ℕ) (w w' : World S)
      → P w.sink
      → split_recovery_data_request write garbage connection_delay max_packet_count from to w
        ≡ ok (some (tt, w'))
      → P w'.sink
  unfolding Follows
  split_recovery_data_request-Keeps from to w w' q h =
      split_recovery_data_request-Follows write garbage connection_delay max_packet_count KeepsSink
        (λ w p. p) (λ u v w f g p. g (f p)) recovery_packets-Keeps from to w w' tt h q
