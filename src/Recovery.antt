-- ===== src/Recovery.antt =====
-- recoverymgr.h, `CRecoveryMgr`: asks the recovery server for messages that the feed has skipped.
-- Sockets, the clock and `usleep` are the world: what they answer is given as a list of attempts, one
-- for each connection, and what is asked of them is noted in a log.
pub mod Packets
pub mod Turns
pub mod Rounds
pub mod Parsing
pub mod Moved
pub mod Chunks
pub mod Preserved
pub mod Runs
pub mod Sink
pub mod Leaks
pub mod Sockets
pub mod Answer
pub mod Arrival
pub mod Pieces
pub mod Overlaps
pub mod Ends
pub mod Delivery
pub mod Blocks
pub mod Delay
pub mod Done
pub mod Requests
pub mod Options
pub mod Tiles
use real_time_cr.Prelude.{
  ltb, ◌==◌, if◌then◌else◌, length, Exec, ok, fault, ℕ, zero, suc, ◌-◌, ◌/◌, ◌%◌, ◌^◌, Bool, true,
  false, not, ◌&&◌, Option, none, some, List, [], ◌∷◌, ◌++◌,
}
use real_time_cr.Calls.{is_negative}
use real_time_cr.Message.{BcastMsg}
use real_time_cr.Words.{add32, lt32, sub64, lt64, div32, sub32}
use real_time_cr.Recovery.Packets.{Reader, get_packet_from_message, kept, stopped}

-- A call of `recv`: bytes (no more than there is room for), the end of the stream, or an error.
pub data Recv : Type 0 where
  chunk : List ℕ → Recv
  closed : Recv
  broken : Recv

-- What the world answers to one call of `RecoveryPackets`. The clocks are in nanoseconds; `socket` is
-- the result of the call of that name, an `int`.
pub record Attempt : Type 0 where
  pub clock_before : ℕ
  pub clock_after : ℕ
  pub socket : ℕ
  pub server_connected : Bool
  pub request_sent : Bool
  pub received : List Recv

pub data Event : Type 0 where
  slept : ℕ → Event
  opened : (fd : ℕ) → Event
  connected : (fd : ℕ) → Event
  requested : ℕ → ℕ → Event
  shut : (fd : ℕ) → Event

-- The members of the manager that change, the world, and the state behind `WriteDataInFile1`.
pub record World (S : Type 0) : Type 0 where
  pub recovery_sock : ℕ
  pub last_recovery_time : ℕ
  pub attempts : List Attempt
  pub log : List Event
  pub sink : S

-- The members as the constructor sets them; -1 is no socket.
abbrev pub recovery_mgr : {S : Type 0} → List Attempt → S → World S
recovery_mgr attempts sink = record {
  recovery_sock = 2 ^ 32 - 1;
  last_recovery_time = 2147483647;
  attempts = attempts;
  log = [];
  sink = sink;
}

-- `none` is a call that has not come back: the world has no more answers, or a loop does not end.
abbrev pub M : Type 0 → Type 0 → Type 0
M S A = World S → Exec (Option (A × World S))

module _ {S : Type 0} where
  infixl 5 ◌>>=◌
  abbrev pub ◌>>=◌ : {A B : Type 0} → M S A → (A → M S B) → M S B
  ◌>>=◌ m f w = elim (m w) [
    | fault e ↦ fault e
    | ok o ↦ elim o [ none ↦ ok none | some (a, w') ↦ f a w' ]
  ]

  abbrev pub pure : {A : Type 0} → A → M S A
  pure a w = ok (some (a, w))

-- The two references `nRecoveryCount` and `nLastSeqNo`.
pub record Progress : Type 0 where
  pub recovery_count : ℕ
  pub last_seq_no : ℕ

abbrev pub no_progress : Progress
no_progress = record { recovery_count = 0; last_seq_no = 0 }

module _ {S : Type 0} (write : BcastMsg → S → Exec S) (garbage : List ℕ)
    (connection_delay max_packet_count : ℕ) where
  -- `(tv_sec*1000000000L + tv_nsec)/1000`, for clocks below 2 ^ 63 nanoseconds (the year 2262).
  abbrev pub micros : ℕ → ℕ
  micros nanos = nanos / 1000

  -- The wait that the exchange asks for between two requests; `__useconds_t` has 32 bits.
  unfoldable pub wait : Attempt → World S → World S
  wait a w =
      let delay = sub64 (micros a.clock_before) w.last_recovery_time in
      if lt64 delay connection_delay
      then record w { log = w.log ++ (slept (sub64 connection_delay delay % 2 ^ 32) ∷ []) }
      else w

  abbrev pub reader : Progress → World S → Reader S
  reader p w = record {
    union = garbage;
    last_seq_no = p.last_seq_no;
    count = p.recovery_count;
    sink = w.sink;
  }

  abbrev pub progress_of : Reader S → Progress
  progress_of r = record { recovery_count = r.count; last_seq_no = r.last_seq_no }

  -- `CreateSocket` and `ConnectServer`: `true` is the result 0, `false` the result -1.
  unfoldable pub create_socket : Attempt → World S → Bool × World S
  create_socket a w =
      let w' = record w { recovery_sock = a.socket } in
      if is_negative a.socket
      then (false, w')
      else (true, record w' { log = w.log ++ (opened a.socket ∷ []) })

  unfoldable pub connect_server : Attempt → World S → Bool × World S
  connect_server a w =
      if a.server_connected
      then (true, record w { log = w.log ++ (connected w.recovery_sock ∷ []) })
      else (false, w)

  abbrev pub close_socket : World S → World S
  close_socket w = record w { log = w.log ++ (shut w.recovery_sock ∷ []) }

  -- The loop of `recv`; `false` is the early `return -1`. The pending bytes stand before the new ones.
  unfoldable pub receive : List Recv → List ℕ → Progress → M S (Bool × Progress)
  receive [] pending p w = ok none
  receive (closed ∷ rs) pending p w = ok (some ((true, p), close_socket w))
  receive (broken ∷ rs) pending p w = ok (some ((true, p), close_socket w))
  receive (chunk bytes ∷ rs) pending p w =
      elim (get_packet_from_message write garbage (pending ++ bytes) (reader p w)) [
        | fault e ↦ fault e
        | ok o ↦ elim o [
          | none ↦ ok none
          | some q ↦ elim q [
            | kept rest r ↦ receive rs rest (progress_of r) (record w { sink = r.sink })
            | stopped r ↦
                ok (some ((false, progress_of r), close_socket (record w { sink = r.sink })))
          ]
        ]
      ]

  -- The part from the request on.
  unfoldable pub send_request : Attempt → ℕ → ℕ → Progress → M S (Bool × Progress)
  unfolding receive
  send_request a from to p w =
      if not a.request_sent
      then ok (some ((false, p), close_socket w))
      else (receive a.received [] p >>= λ r. pure (r.0 && to == r.1.last_seq_no, r.1)) (record w {
        last_recovery_time = micros a.clock_after;
        log = w.log ++ (requested from to ∷ []);
      })

  -- The part from the socket on.
  unfoldable pub ask : Attempt → ℕ → ℕ → Progress → M S (Bool × Progress)
  unfolding create_socket connect_server send_request
  ask a from to p w =
      let (created, w1) = create_socket a w in
      let (there, w2) = connect_server a w1 in
      if not created
      then ok (some ((false, p), w1))
      else if not there
      then ok (some ((false, p), w2))
      else send_request a from to p w2

  -- `true` is the result 0, `false` the result -1.
  unfoldable pub recovery_packets : ℕ → ℕ → Progress → M S (Bool × Progress)
  unfolding ask wait
  recovery_packets from to p w = elim w.attempts [
    | [] ↦ ok none
    | a ∷ rest ↦ ask a from to p (wait a (record w { attempts = rest }))
  ]

  -- The loop of `ForceRecoveryPackets`, with fuel for its rounds: each one uses up an attempt.
  unfoldable pub force_loop : ℕ → ℕ → ℕ → Progress → M S Progress
  force_loop zero from to p w = if p.last_seq_no == to then ok (some (p, w)) else ok none
  force_loop (suc fuel) from to p w =
      let again : Exec (Option (Progress × World S)) =
        (recovery_packets (add32 from p.recovery_count) to (record p { recovery_count = 0 })
            >>= λ r.
                let q : Progress = record {
                  recovery_count = add32 p.recovery_count r.1.recovery_count;
                  last_seq_no = r.1.last_seq_no;
                } in
                if r.0 then pure q else force_loop fuel from to q)
          w in
      if p.last_seq_no == to then ok (some (p, w)) else again

  unfoldable pub force_recovery_packets : ℕ → ℕ → Progress → M S (Bool × Progress)
  force_recovery_packets from to p w =
      if lt32 to from
      then ok (some ((false, p), w))
      else (force_loop (length w.attempts) from to p >>= λ q. pure (true, q)) w

  -- `RecoveryPackets`, and by force if that fails: the last sequence number received.
  unfoldable pub recover_block : ℕ → ℕ → M S ℕ
  recover_block from to = do
    r ← recovery_packets from to no_progress
    if r.0
        then pure r.1.last_seq_no
        else (force_recovery_packets from to r.1 >>= λ f. pure f.1.last_seq_no)

  -- The loop over the full blocks and the request for the rest: `next` is `lnFromSeqNo`, `upto` is
  -- `lnToSeqNo`.
  unfoldable pub split_loop : ℕ → ℕ → ℕ → ℕ → M S (Unit {0})
  split_loop zero next upto to w = (recover_block next to >>= λ _. pure tt) w
  split_loop (suc rounds) next upto to w =
      (recover_block next (add32 upto max_packet_count) >>= λ last.
      let rest =
        split_loop rounds (add32 (add32 upto max_packet_count) 1) (add32 upto max_packet_count)
          to in
      if to == last then pure tt else rest)
        w

  -- `lnFullCount` is an `int`, and the loop has no round if it is negative.
  unfoldable pub split_recovery_data_request : ℕ → ℕ → M S (Unit {0})
  split_recovery_data_request from to w =
      if lt32 to from then ok (some (tt, w)) else elim (div32 (sub32 to from) max_packet_count) [
        | fault e ↦ fault e
        | ok full ↦ split_loop (if ltb full (2 ^ 31) then full else 0) from from to w
      ]
