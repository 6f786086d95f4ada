-- ===== src/Tests/Requests.antt =====
-- Requests to the recovery server.
use real_time_cr.Prelude.{ok, ℕ, ◌≡◌, refl, true, some, List, [], ◌∷◌, ◌++◌, arith, ◌^◌, ◌-◌}
use real_time_cr.Recovery.{
  World, recover_block, Recv, chunk, Attempt, force_recovery_packets, requested, force_loop,
  recovery_packets, closed, ask, wait, receive, slept, opened, connected, shut,
}
use real_time_cr.Tests.Streams.{noted, trade_bytes}
use real_time_cr.Recovery.Packets.{get_packet_from_message, read_packets, move_to_front, turn_on}
use real_time_cr.Message.{read_bcast_msg}
use real_time_cr.Recovery.Delay.{wait-log}

abbrev attempt : List Recv → Attempt
attempt rs = record {
  clock_before = 2_000_000;
  clock_after = 3_000_000;
  socket = 5;
  server_connected = true;
  request_sent = true;
  received = rs;
}

-- The first answer ends before the last message of the range, the second one has it.
abbrev world : World (List ℕ)
world = record {
  recovery_sock = 2 ^ 32 - 1;
  last_recovery_time = 1_000;
  attempts =
      attempt (chunk (trade_bytes 7) ∷ closed ∷ [])
      ∷ attempt (chunk (trade_bytes 8) ∷ closed ∷ [])
      ∷ [];
  log = [];
  sink = [];
}

abbrev after : World (List ℕ)
after = record {
  recovery_sock = 5;
  last_recovery_time = 3_000;
  attempts = [];
  log =
      opened 5
      ∷ connected 5
      ∷ requested 7 8
      ∷ shut 5
      ∷ slept 1500
      ∷ opened 5
      ∷ connected 5
      ∷ requested 8 8
      ∷ shut 5
      ∷ [];
  sink = 7 ∷ 8 ∷ [];
}

recover_block_runs : recover_block noted [] 500 10 7 8 world ≡ ok (some (8, after))
unfolding recover_block force_recovery_packets force_loop recovery_packets ask wait receive
    get_packet_from_message read_packets move_to_front turn_on read_bcast_msg
recover_block_runs = refl

-- 400 microseconds after the last request, the other 100 of the delay are slept.
abbrev recent : World (List ℕ)
recent = record world { last_recovery_time = 1_600 }

wait-log_example : (wait noted [] 500 10 (attempt []) recent).log ≡ slept 100 ∷ []
wait-log_example =
    wait-log noted [] 500 10 (attempt []) recent (omega arith) (omega arith) (omega arith)

-- Blocks of one: 7 and 8 first, and then 9.
abbrev wide : World (List ℕ)
wide = record {
  recovery_sock = 2 ^ 32 - 1;
  last_recovery_time = 1_000;
  attempts =
      attempt (chunk (trade_bytes 7 ++ trade_bytes 8) ∷ closed ∷ [])
      ∷ attempt (chunk (trade_bytes 9) ∷ closed ∷ [])
      ∷ [];
  log = [];
  sink = [];
}

abbrev wide_after : World (List ℕ)
wide_after = record {
  recovery_sock = 5;
  last_recovery_time = 3_000;
  attempts = [];
  log =
      opened 5
      ∷ connected 5
      ∷ requested 7 8
      ∷ shut 5
      ∷ slept 1500
      ∷ opened 5
      ∷ connected 5
      ∷ requested 9 9
      ∷ shut 5
      ∷ [];
  sink = 7 ∷ 8 ∷ 9 ∷ [];
}
