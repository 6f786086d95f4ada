-- ===== src/Recovery/Blocks.antt =====
-- A range of messages, asked for in blocks of a server that answers each request.
use native.Mathlib.Nat.{suc-mul, div-mul-le_self, div-add-mod, mod-lt}
use real_time_cr.Prelude.{
  ◌==◌, if◌then◌else◌, Exec, ok, bind-eq-ok, ℕ, zero, suc, ◌+◌, ◌-◌, ◌*◌, ◌/◌, ◌^◌, ◌≤◌, ◌<◌, ◌≡◌,
  refl, ap, ◌∙◌, true, false, some, List, [], ◌∷◌, ◌++◌, arith,
}
use real_time_cr.Message.{BcastMsg}
use real_time_cr.Recovery.{
  Attempt, World, pure, recover_block, split_loop, split_recovery_data_request,
}
use real_time_cr.Recovery.Answer.{IsBlind, write_message, write_messages}
use real_time_cr.Recovery.Delivery.{IsAnswer, last_number, recover_block_answered}
use real_time_cr.Recovery.Runs.{bind-runs}
use real_time_cr.Recovery.Tiles.{split_rounds}
use real_time_cr.Words.{add32}

-- The messages of a block, and the attempt that brings them.
pub record Block : Type 0 where
  pub attempt : Attempt
  pub messages : List (List ℕ)
  pub is_answer : IsAnswer attempt messages

abbrev pub attempts_of : List Block → List Attempt
attempts_of [] = []
attempts_of (b ∷ bs) = b.attempt ∷ attempts_of bs

abbrev pub messages_of : List Block → List (List ℕ)
messages_of [] = []
messages_of (b ∷ bs) = b.messages ++ messages_of bs

-- The blocks end at the numbers that the code asks for: `size` behind `upto`, `size` behind that, and so on, and the
-- last block at `to`.
abbrev pub EndAt : ℕ → ℕ → ℕ → List Block → Type 0
EndAt size upto to [] = ⊥
EndAt size upto to (b ∷ []) = (last_number b.messages 0 ≡ to) × (to ≤ upto + size)
EndAt size upto to (b ∷ c ∷ bs) =
    (last_number b.messages 0 ≡ upto + size)
    × (upto + size < to)
    × EndAt size (upto + size) to (c ∷ bs)

module _ {S : Type 0} (write : BcastMsg → S → Exec S) (garbage : List ℕ)
    (connection_delay max_packet_count : ℕ) where
  pub write_messages-append :
      (ms ns : List (List ℕ)) (s s' : S)
      → write_messages write garbage (ms ++ ns) s ≡ ok s'
      → (s1 : S) × (write_messages write garbage ms s ≡ ok s1)
        × (write_messages write garbage ns s1 ≡ ok s')
  unfolding write_messages
  write_messages-append [] ns s s' h = (s, refl, h)
  write_messages-append (m ∷ ms) ns s s' h =
      let (s0, k, l) =
        bind-eq-ok (write_message write garbage m s) (write_messages write garbage (ms ++ ns)) h in
      let (s1, e, e2) = write_messages-append ms ns s0 s' l in (s1, rw (write_messages, k) e, e2)

  -- A block that is there, and the rest.
  one_round :
      (rounds next upto end to : ℕ) (w w1 : World S)
      → add32 upto max_packet_count ≡ end
      → recover_block write garbage connection_delay max_packet_count next end w
        ≡ ok (some (end, w1))
      → split_loop write garbage connection_delay max_packet_count (suc rounds) next upto to w
        ≡ (if to == end
              then pure tt
              else split_loop write garbage connection_delay max_packet_count rounds
                  (add32 end 1)
                  end
                  to)
            w1
  unfolding split_loop
  one_round rounds next upto end to w w1 e run = rw e (
      bind-runs (recover_block write garbage connection_delay max_packet_count next end)
        (λ last.
          if to == last
          then pure tt
          else split_loop write garbage connection_delay max_packet_count rounds (add32 end 1) end
              to)
        w run)

  split_loop_answered :
      (bs : List Block) (more : List Attempt) (rounds next upto to : ℕ) (w : World S) (s' : S)
      → IsBlind write garbage
      → 0 < max_packet_count
      → to < 2 ^ 31
      → upto + rounds * max_packet_count ≤ to
      → to < upto + rounds * max_packet_count + max_packet_count
      → EndAt max_packet_count upto to bs
      → w.attempts ≡ attempts_of bs ++ more
      → write_messages write garbage (messages_of bs) w.sink ≡ ok s'
      → (w' : World S) × (split_loop write garbage connection_delay max_packet_count rounds next
            upto to w
          ≡ ok (some (tt, w')))
        × (w'.sink ≡ s')
        × (w'.attempts ≡ more)
  unfolding split_loop write_messages
  split_loop_answered [] more rounds next upto to w s' blind pos small low high ends from_w h =
      elim ends [ ]
  split_loop_answered (b ∷ []) more zero next upto to w s' blind pos small low high ends from_w h =
      let (s1, h1, h2) = write_messages-append b.messages [] w.sink s' h in
      let same : s1 ≡ s' = ground arith in
      let (w1, run, sink, left) =
        recover_block_answered write garbage connection_delay max_packet_count b.attempt more
          b.messages next to w s1 blind b.is_answer from_w ends.0 h1 in
      (
        w1,
        bind-runs (recover_block write garbage connection_delay max_packet_count next to)
            (λ _. pure tt) w run,
        sink ∙ same,
        left,
      )
  split_loop_answered (b ∷ []) more (suc zero) next upto to w s' blind pos small low high ends
        from_w h =
      let (s1, h1, h2) = write_messages-append b.messages [] w.sink s' h in
      let same : s1 ≡ s' = ground arith in
      let all_of_it : upto + max_packet_count ≡ to = omega (arith, ends.1) in
      let end_eq : add32 upto max_packet_count ≡ to = omega arith in
      let (w1, run, sink, left) =
        recover_block_answered write garbage connection_delay max_packet_count b.attempt more
          b.messages next to w s1 blind b.is_answer from_w ends.0 h1 in
      let last : (to == to) ≡ true = ground arith in
      (
        w1,
        one_round zero next upto to to w w1 end_eq run
            ∙ ap
                (λ c.
                  (if c
                      then pure tt
                      else split_loop write garbage connection_delay max_packet_count zero
                          (add32 to 1) to to)
                    w1)
                last,
        sink ∙ same,
        left,
      )
  split_loop_answered (b ∷ []) more (suc (suc rounds)) next upto to w s' blind pos small low high
        ends from_w h =
      absurd (
        omega
          (arith, suc-mul (suc rounds) max_packet_count, suc-mul rounds max_packet_count, ends.1))
  split_loop_answered (b ∷ c ∷ bs) more zero next upto to w s' blind pos small low high ends from_w
        h =
      absurd (omega (arith, ends.1))
  split_loop_answered (b ∷ c ∷ bs) more (suc rounds) next upto to w s' blind pos small low high ends
        from_w h =
      let end = upto + max_packet_count in
      let (last, inside, others) = ends in
      let end_eq : add32 upto max_packet_count ≡ end = omega arith in
      let (s1, h1, h2) = write_messages-append b.messages (messages_of (c ∷ bs)) w.sink s' h in
      let (w1, run, sink, left) =
        recover_block_answered write garbage connection_delay max_packet_count b.attempt
          (attempts_of (c ∷ bs) ++ more) b.messages next end w s1 blind b.is_answer from_w last
          h1 in
      let other : (to == end) ≡ false = ground arith in
      let (w', run2, sink2, left2) =
        split_loop_answered (c ∷ bs) more rounds (add32 end 1) end to w1 s' blind pos small
          (omega (arith, suc-mul rounds max_packet_count))
          (omega (arith, suc-mul rounds max_packet_count)) others left
          (ap (write_messages write garbage (messages_of (c ∷ bs))) sink ∙ h2) in
      (
        w',
        one_round rounds next upto end to w w1 end_eq run
            ∙ ap
                (λ c.
                  (if c
                      then pure tt
                      else split_loop write garbage connection_delay max_packet_count rounds
                          (add32 end 1) end to)
                    w1)
                other
            ∙ run2,
        sink2,
        left2,
      )

  -- A server that answers each request with messages up to the last one asked for, in pieces of which none makes a
  -- `memcpy` overlap: a call of
  -- `SplitRecoveryDataRequest` for numbers from 0 to 2 ^ 31 - 1, in blocks of at least one, comes back, has made one
  -- request for each block, and has handled all messages, in order and each one alone, if none makes a fault.
  pub split_recovery_data_request-delivers :
      (bs : List Block) (more : List Attempt) (from to : ℕ) (w : World S) (s' : S)
      → IsBlind write garbage
      → 0 < max_packet_count
      → max_packet_count < 2 ^ 31
      → from ≤ to
      → to < 2 ^ 31
      → EndAt max_packet_count from to bs
      → w.attempts ≡ attempts_of bs ++ more
      → write_messages write garbage (messages_of bs) w.sink ≡ ok s'
      → (w' : World S) × (split_recovery_data_request write garbage connection_delay
            max_packet_count from to w
          ≡ ok (some (tt, w')))
        × (w'.sink ≡ s')
        × (w'.attempts ≡ more)
  split_recovery_data_request-delivers bs more from to w s' blind pos max le small ends from_w h =
      let (w', run, sink, left) =
        split_loop_answered bs more ((to - from) / max_packet_count) from from to w s' blind pos
          small (omega (arith, div-mul-le_self (to - from) max_packet_count))
          (omega (arith, div-add-mod (to - from) max_packet_count, mod-lt (to - from) pos)) ends
          from_w h in
      (
        w',
        split_rounds write garbage connection_delay max_packet_count from to w le small pos max
            ∙ run,
        sink,
        left,
      )
