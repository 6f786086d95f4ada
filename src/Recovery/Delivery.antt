-- ===== src/Recovery/Delivery.antt =====
-- What the recovery manager makes of a server that answers each request.
use real_time_cr.Prelude.{
  ◌==◌, ==_iff, if◌then◌else◌, Bool-cases, length, get_or, All, Exec, ok, bind-eq-ok, ℕ, ◌+◌, ◌/◌,
  ◌≡◌, refl, sym, ap, ◌∙◌, inl, inr, true, false, ◌&&◌, some, List, [], ◌∷◌, ◌++◌, arith, subst,
  length-append,
}
use real_time_cr.Calls.{is_negative}
use real_time_cr.Message.{BcastMsg, field}
use real_time_cr.Recovery.{
  Attempt, Progress, no_progress, World, Recv, chunk, requested, shut, opened, connected, wait,
  receive, pure, ask, send_request, create_socket, connect_server, recovery_packets, recover_block,
  force_recovery_packets, ◌>>=◌,
}
use real_time_cr.Recovery.Answer.{
  IsMessage, IsBlind, IsResponse, concat, handle, handle_all, write_message, write_messages,
  reader_with, size_bounds,
}
use real_time_cr.Recovery.Arrival.{pieces, AreMovable, left_over, IsShortOf}
use real_time_cr.Recovery.Moved.{IsMovable}
use real_time_cr.Recovery.Pieces.{receive-pieces, one_piece, stream-Cut, response_passed, ended}
use real_time_cr.Recovery.Runs.{bind-runs}
use real_time_cr.Words.{add32, lt64, sub64}

-- The number of the last message, or `n` if there is none.
abbrev pub last_number : List (List ℕ) → ℕ → ℕ
last_number [] n = n
last_number (m ∷ ms) n = last_number ms (field 4 4 m)

-- An attempt in which all calls come out well, and the server sends a response and the messages `ms`, in pieces, the
-- first of which holds the response, and then closes the connection. No piece leaves more of a cut message over than
-- stands in front of it.
pub record IsAnswer (a : Attempt) (ms : List (List ℕ)) : Type 0 where
  pub socket_made : is_negative a.socket ≡ false
  pub server_there : a.server_connected ≡ true
  pub sent : a.request_sent ≡ true
  pub response : List ℕ
  pub first : List ℕ
  pub others : List (List ℕ)
  pub more : List Recv
  pub is_response : IsResponse response
  pub whole : All IsMessage ms
  pub stream : concat (first ∷ others) ≡ concat ms
  pub movable : AreMovable 10 ms 0 (first ∷ others)
  pub received : a.received ≡ chunk (response ++ first) ∷ pieces others more

nothing_is_short : (ms : List (List ℕ)) → All IsMessage ms → IsShortOf [] ms
nothing_is_short [] all = refl
nothing_is_short (m ∷ ms) (is, all) = omega (arith, (size_bounds (get_or m 8 0) (length m) is).0)

module _ {S : Type 0} (write : BcastMsg → S → Exec S) (garbage : List ℕ)
    (connection_delay max_packet_count : ℕ) where
  -- Messages written one after the other, with what is noted of them.
  messages_handled :
      (ms : List (List ℕ)) (p : Progress) (s s' : S)
      → write_messages write garbage ms s ≡ ok s'
      → (n : ℕ) × (handle_all write garbage ms (p, s)
          ≡ ok (record { recovery_count = n; last_seq_no = last_number ms p.last_seq_no }, s'))
  unfolding handle_all handle write_messages
  messages_handled [] p s s' h = (p.recovery_count, ground arith)
  messages_handled (m ∷ ms) p s s' h =
      let (s1, k, l) =
        bind-eq-ok (write_message write garbage m s) (write_messages write garbage ms) h in
      let (n, e) =
        messages_handled ms
          (record { recovery_count = add32 p.recovery_count 1; last_seq_no = field 4 4 m }) s1 s'
          l in
      (n, rw (handle_all, handle, k) e)

  -- The pieces of the answer are read to their end.
  receive_answer :
      (a : Attempt) (ms : List (List ℕ)) (p : Progress) (w : World S) (q' : Progress × S)
      → IsBlind write garbage
      → IsAnswer a ms
      → handle_all write garbage ms (p, w.sink) ≡ ok q'
      → receive write garbage connection_delay max_packet_count a.received [] p w
        ≡ ended write garbage connection_delay max_packet_count p w q'
  unfolding receive
  receive_answer a ms p w q' blind is h =
      let c =
        stream-Cut write garbage ms is.first (concat is.others) garbage (p, w.sink) q' blind
          is.whole is.stream h in
      let (now, later) = is.movable in
      let size : 10 + (0 + length is.first) ≡ length (is.response ++ is.first) =
        omega (arith, length-append is.response is.first, is.is_response.size) in
      let zero_more : 0 + length is.first ≡ length is.first = omega arith in
      let here : IsMovable (length (is.response ++ is.first)) (left_over ms (length is.first)) =
        subst (λ n. IsMovable n (left_over ms (length is.first))) size
          (subst (λ n. IsMovable (10 + (0 + length is.first)) (left_over ms n)) zero_more now) in
      let there : AreMovable 0 c.to_come (length c.rest) is.others =
        rw (c.to_come_eq, c.rest_size, ← zero_more) later in
      let passed =
        response_passed write garbage is.response is.first
          (reader_with write garbage garbage (p, w.sink)) is.is_response in
      let run =
        one_piece write garbage connection_delay max_packet_count ms is.first (concat is.others)
          (is.response ++ is.first) p w q' c passed here in
      rw (is.received, receive, run)
        (receive-pieces write garbage connection_delay max_packet_count is.others c.to_come is.more
          c.rest c.reached.0 (record w { sink = c.reached.1 }) q' blind c.whole c.stream c.short
          there c.handled)

  wait_passes :
      (a : Attempt) (w : World S)
      → let w1 = wait write garbage connection_delay max_packet_count a w in
        (w1.sink ≡ w.sink) × (w1.attempts ≡ w.attempts)
  unfolding wait
  wait_passes a w =
      elim (Bool-cases
        (lt64 (sub64 (a.clock_before / 1000) w.last_recovery_time) connection_delay)) [
          | inl soon ↦ rw soon (refl, refl)
          | inr late ↦ rw late (refl, refl)
        ]

  -- With an answer, `RecoveryPackets` handles its messages, and says whether the last one is the last of the range.
  recovery_packets_answered :
      (a : Attempt) (rest : List Attempt) (ms : List (List ℕ)) (from to : ℕ) (p : Progress)
      (w : World S) (q' : Progress × S)
      → IsBlind write garbage
      → IsAnswer a ms
      → w.attempts ≡ a ∷ rest
      → handle_all write garbage ms (p, w.sink) ≡ ok q'
      → (w' : World S) × (recovery_packets write garbage connection_delay max_packet_count from to p
            w
          ≡ ok (some ((to == q'.0.last_seq_no, q'.0), w')))
        × (w'.sink ≡ q'.1)
        × (w'.attempts ≡ rest)
  unfolding recovery_packets ask create_socket connect_server send_request
  recovery_packets_answered a rest ms from to p w q' blind is next h =
      let w0 = record w { attempts = rest } in
      let w1 = wait write garbage connection_delay max_packet_count a w0 in
      let (e1, e2) = wait_passes a w0 in
      let w2 : World S = record w1 {
        recovery_sock = a.socket;
        last_recovery_time = a.clock_after / 1000;
        log =
            ((w1.log ++ (opened a.socket ∷ [])) ++ (connected a.socket ∷ []))
            ++ (requested from to ∷ []);
      } in
      let h1 : handle_all write garbage ms (p, w2.sink) ≡ ok q' =
        ap (λ s. handle_all write garbage ms (p, s)) e1 ∙ h in
      let r = receive_answer a ms p w2 q' blind is h1 in
      (
        record w2 { sink = q'.1; log = w2.log ++ (shut a.socket ∷ []) },
        rw (next, is.socket_made, is.server_there, is.sent)
            (bind-runs (receive write garbage connection_delay max_packet_count a.received [] p)
              (λ y. pure (y.0 && to == y.1.last_seq_no, y.1)) w2 r),
        refl,
        e2,
      )

  -- With an answer whose last message is the last of the block, the block takes one request.
  pub recover_block_answered :
      (a : Attempt) (rest : List Attempt) (ms : List (List ℕ)) (from to : ℕ) (w : World S) (s' : S)
      → IsBlind write garbage
      → IsAnswer a ms
      → w.attempts ≡ a ∷ rest
      → last_number ms 0 ≡ to
      → write_messages write garbage ms w.sink ≡ ok s'
      → (w' : World S) × (recover_block write garbage connection_delay max_packet_count from to w
          ≡ ok (some (to, w')))
        × (w'.sink ≡ s')
        × (w'.attempts ≡ rest)
  unfolding recover_block
  recover_block_answered a rest ms from to w s' blind is next last h =
      let (n, e) = messages_handled ms no_progress w.sink s' h in
      let q' : Progress × S = (record { recovery_count = n; last_seq_no = last_number ms 0 }, s') in
      let (w', run, sink, left) =
        recovery_packets_answered a rest ms from to no_progress w q' blind is next e in
      let good : (to == last_number ms 0) ≡ true = (==_iff _ _).1 (sym last) in
      (
        w',
        bind-runs
              (recovery_packets write garbage connection_delay max_packet_count from to no_progress)
              (λ r.
                if r.0
                then pure r.1.last_seq_no
                else (force_recovery_packets write garbage connection_delay max_packet_count from to
                      r.1
                    >>= λ f. pure f.1.last_seq_no))
              w run
            ∙ rw (good, last) refl,
        sink,
        left,
      )
