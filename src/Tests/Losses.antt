-- ===== src/Tests/Losses.antt =====
-- Messages that the feed has lost.
use real_time_cr.Prelude.{
  ok, inr, ℕ, ◌≡◌, refl, true, false, some, List, [], ◌∷◌, ◌++◌, arith, drop,
}
use real_time_cr.Feed.{feed_loop, Feed, on_datagram, on_message, write_data_in_file1, fill_gap}
use real_time_cr.Feed.Covered.{Covered, messages}
use real_time_cr.Feed.Descriptors.{feed_loop-Leaves}
use real_time_cr.Feed.Lossless.{AreConsecutive, feed_loop-lossless}
use real_time_cr.Recovery.{
  World, Attempt, Recv, chunk, closed, opened, connected, requested, shut, recover_block,
  force_recovery_packets, force_loop, recovery_packets, ask, wait, receive,
  split_recovery_data_request, split_loop,
}
use real_time_cr.Recovery.Answer.{IsMessage, IsResponse, size_of, write_message, write_messages}
use real_time_cr.Recovery.Blocks.{Block, EndAt, attempts_of}
use real_time_cr.Recovery.Leaks.{Leaves}
use real_time_cr.Recovery.Packets.{get_packet_from_message, read_packets, move_to_front, turn_on}
use real_time_cr.Message.{read_bcast_msg, number}
use real_time_cr.Writer.{Stores, write_data_in_file, on_trade, count_lots}
use real_time_cr.Words.{double_to_int64, div32}
use real_time_cr.Contract.{find, store, insert}
use real_time_cr.Tests.Data.{contract}
use real_time_cr.Tests.Datagrams.{records, stores, sale, sold}
use real_time_cr.Tests.Streams.{header}
use real_time_cr.Message.Kind

abbrev before : Feed records [] 500 1
before = record { union = []; last_seq_no = 0 }

abbrev no_server : Attempt
no_server = record {
  clock_before = 2_000_000;
  clock_after = 3_000_000;
  socket = 6;
  server_connected = false;
  request_sent = true;
  received = [];
}

abbrev answered : List Recv → Attempt
answered rs = record no_server { socket = 5; server_connected = true; received = rs }

-- The first connection fails, and the second one brings message 1 in front of message 2.
abbrev lossy : World (Stores records)
lossy = record {
  recovery_sock = 0;
  last_recovery_time = 0;
  attempts = no_server ∷ answered (chunk (sale 1) ∷ closed ∷ []) ∷ [];
  log = [];
  sink = stores;
}

abbrev after : Feed records [] 500 1
after = record { union = sale 2; last_seq_no = 2 }

abbrev repaired : World (Stores records)
repaired = record {
  recovery_sock = 5;
  last_recovery_time = 3_000;
  attempts = [];
  log = opened 6 ∷ opened 5 ∷ connected 5 ∷ requested 1 1 ∷ shut 5 ∷ [];
  sink = record stores {
    trade_msg_store = sold ∷ record sold { seq_no = 2 } ∷ [];
    token_store = 11 ∷ [];
    token_data_store =
        (11, record (contract 11 1) { total_traded = 4 })
        ∷ (12, contract 12 2)
        ∷ (13, contract 13 3)
        ∷ [];
  };
}

lossy_runs : feed_loop records [] 500 1 (sale 2 ∷ []) before lossy ≡ ok (some (after, repaired))
unfolding feed_loop on_datagram on_message fill_gap split_recovery_data_request split_loop
    recover_block force_recovery_packets force_loop recovery_packets ask wait receive
    get_packet_from_message read_packets move_to_front turn_on write_data_in_file1
    write_data_in_file on_trade count_lots read_bcast_msg find store insert double_to_int64 div32
lossy_runs = refl

-- The socket 6 is open still.
feed_loop-Leaves_example : Leaves lossy repaired
feed_loop-Leaves_example =
    feed_loop-Leaves records [] 500 1 (sale 2 ∷ []) before after lossy repaired lossy_runs

abbrev response : List ℕ
response = header Kind.recovery_response 0 ++ (b'S' ∷ [])

response-IsResponse : IsResponse response
response-IsResponse = record { size = refl; kind = refl; status = ground arith }

sale-IsMessage : (n : ℕ) → IsMessage (sale n)
unfolding size_of
sale-IsMessage n = refl

-- Messages 1 and 2 come in two pieces, cut behind the header of message 2, and message 3 in one.
abbrev first_block : Block
first_block = record {
  attempt = answered (
      chunk (response ++ (sale 1 ++ header Kind.trade_message 2))
      ∷ chunk (drop 9 (sale 2))
      ∷ closed
      ∷ []);
  messages = sale 1 ∷ sale 2 ∷ [];
  is_answer = record {
    socket_made = refl;
    server_there = refl;
    sent = refl;
    response = response;
    first = sale 1 ++ header Kind.trade_message 2;
    others = drop 9 (sale 2) ∷ [];
    more = [];
    is_response = response-IsResponse;
    whole = (sale-IsMessage 1, (sale-IsMessage 2, tt));
    stream = refl;
    movable = (inr (omega arith), (inr (omega arith), tt));
    received = refl;
  };
}

abbrev second_block : Block
second_block = record {
  attempt = answered (chunk (response ++ sale 3) ∷ closed ∷ []);
  messages = sale 3 ∷ [];
  is_answer = record {
    socket_made = refl;
    server_there = refl;
    sent = refl;
    response = response;
    first = sale 3;
    others = [];
    more = [];
    is_response = response-IsResponse;
    whole = (sale-IsMessage 3, tt);
    stream = refl;
    movable = (inr (omega arith), tt);
    received = refl;
  };
}

abbrev blocks : List Block
blocks = first_block ∷ second_block ∷ []

abbrev served : World (Stores records)
served = record lossy { attempts = attempts_of blocks }

abbrev four_sold : Stores records
four_sold = record stores {
  trade_msg_store =
      sold
      ∷ record sold { seq_no = 2 }
      ∷ record sold { seq_no = 3 }
      ∷ record sold { seq_no = 4 }
      ∷ [];
  token_store = 11 ∷ [];
  token_data_store =
      (11, record (contract 11 1) { total_traded = 8 })
      ∷ (12, contract 12 2)
      ∷ (13, contract 13 3)
      ∷ [];
}

in_order : AreConsecutive 0 (sale 1 ∷ sale 2 ∷ sale 3 ∷ sale 4 ∷ [])
unfolding number
in_order = (refl, (refl, (refl, (refl, tt))))

block_ends : EndAt 1 1 3 blocks
unfolding number
block_ends = (refl, omega arith, (refl, omega arith))

four_written :
    write_messages
      (write_data_in_file1 records [] 500 1)
      []
      (sale 1 ∷ sale 2 ∷ sale 3 ∷ sale 4 ∷ [])
      stores
    ≡ ok four_sold
unfolding write_messages write_message write_data_in_file1 write_data_in_file on_trade count_lots
    read_bcast_msg find store insert double_to_int64 div32
four_written = refl

feed_loop-lossless_example :
    (f1 f2 : Feed records [] 500 1) × (w1 w2 : World (Stores records)) × (feed_loop records [] 500 1
        (sale 1 ∷ sale 2 ∷ sale 3 ∷ sale 4 ∷ [])
        before
        served
      ≡ ok (some (f1, w1)))
    × (feed_loop records [] 500 1 (sale 4 ∷ []) before served ≡ ok (some (f2, w2)))
    × (w1.sink ≡ four_sold)
    × (w2.sink ≡ four_sold)
    × (f1.last_seq_no ≡ 4)
    × (f2.last_seq_no ≡ 4)
feed_loop-lossless_example =
    feed_loop-lossless records [] 500 1 blocks [] (sale 4) before served four_sold (omega arith)
      (omega arith) (omega arith) (sale-IsMessage 4) in_order (omega arith) block_ends refl
      four_written
