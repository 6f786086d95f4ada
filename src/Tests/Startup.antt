-- ===== src/Tests/Startup.antt =====
-- The program as a whole.
use real_time_cr.Prelude.{ok, ℕ, ◌-◌, ◌^◌, ◌≡◌, refl, sym, true, Option, some, List, [], ◌∷◌}
use real_time_cr.Tests.Codes.{codes}
use real_time_cr.Start.{start_up, Config, open_queue, open_feed, Running, running}
use real_time_cr.Calls.{
  key_file, Os, open_sockets, Trace, ftok, shmget, shmat, sched_setaffinity, setsockopt, so_rcvbuf,
  so_reuseaddr, ip_add_membership,
}
use real_time_cr.Calls.Call.{socket, bind}
use real_time_cr.Start.Property.{
  contract_file_path, shm_file_path, source_multi_cast_port_number, single_recovery_count,
  connection_delay,
}
use real_time_cr.Start.Sockets.{start_up-sockets}
use real_time_cr.Start.Loop.{all_done, start_up-running}
use real_time_cr.FileDigester.{
  file_digester, no_scrip_info, digest_lines, digest_line, digest_columns, set_column,
  insert_contract,
}
use real_time_cr.Contract.{OmsScripInfo, find, store, insert}
use real_time_cr.FileDigester.Text.{lines, c_string, find_bar, atoi, same_text, read_digits}
use real_time_cr.Program.{main_loop, main_loop-contracts}
use real_time_cr.FileDigester.Record.{contract_of}
use real_time_cr.Feed.{Feed, feed_loop, on_datagram, on_message, write_data_in_file1}
use real_time_cr.Recovery.{World}
use real_time_cr.FileDigester.Columns.{columns}
use real_time_cr.Writer.{Stores, write_data_in_file, on_trade, count_lots}
use real_time_cr.Tests.Datagrams.{records}
use real_time_cr.Tests.Datagrams.{sold, sale}
use real_time_cr.Writer.Collected.{IsCollected}
use real_time_cr.Feed.Contracts.{uncounted}
use real_time_cr.Message.{read_bcast_msg}
use real_time_cr.Words.{double_to_int64, div32}

-- A system on which each call comes out, and one on which the port is taken.
abbrev fine : Os
fine t socket = 3
fine t _ = 0

abbrev port_taken : Os
port_taken t socket = 3
port_taken t (bind fd port) = 2 ^ 32 - 1
port_taken t _ = 0

abbrev config : Config
config contract_file_path = codes "contract.txt"
config shm_file_path = codes "queue.key"
config source_multi_cast_port_number = codes "10831"
config single_recovery_count = codes "100"
config connection_delay = codes "500"
config _ = []

abbrev files : List ℕ → Option (List ℕ)
files path = some (codes "NEATFO 1.0\n11|||NIFTY|||1198333800|9000|CE|||||||||||||||||||||||50|")

start_up-sockets_example : open_sockets [] (start_up port_taken config 32 files []).1 ≡ []
unfolding start_up open_queue key_file c_string open_feed
start_up-sockets_example = start_up-sockets port_taken config 32 files

start_up-running_example : all_done (start_up fine config 32 files []).1 ≡ true
unfolding start_up open_queue key_file c_string open_feed
start_up-running_example = sym (start_up-running fine config 32 files)

-- The contract of the file, with 50 to the lot.
abbrev nifty_call : OmsScripInfo
nifty_call = record no_scrip_info {
  token = 11;
  board_lot_qty = 50;
  symbol = codes "NIFTY";
  expiry_date = 1198333800;
  strike_price = 9000;
  series = codes "CE";
  custom_instrument_type = 2;
}

abbrev program : Running
program = record {
  socket_fd = 3;
  contracts = (11, nifty_call) ∷ [];
  recovery_stream = 0;
  recovery_port = 0;
  recovery_address = [];
  max_packet_count = 100;
  delay = 500;
}

abbrev trace : Trace
trace =
    (ftok (codes "queue.key"), 0)
    ∷ (shmget, 0)
    ∷ (shmat, 0)
    ∷ (sched_setaffinity 0, 0)
    ∷ (socket, 3)
    ∷ (setsockopt 3 so_rcvbuf, 0)
    ∷ (setsockopt 3 so_reuseaddr, 0)
    ∷ (bind 3 10831, 0)
    ∷ (setsockopt 3 ip_add_membership, 0)
    ∷ []

program_starts : start_up fine config 32 files [] ≡ (running program, trace)
unfolding start_up open_queue key_file open_feed file_digester digest_lines digest_line
    digest_columns set_column insert_contract find lines c_string find_bar atoi same_text
    read_digits
program_starts = refl

abbrev after : Feed records [] 500 100
after = record { union = sale 1; last_seq_no = 1 }

abbrev traded : World (Stores records)
traded = record {
  recovery_sock = 2 ^ 32 - 1;
  last_recovery_time = 2147483647;
  attempts = [];
  log = [];
  sink = record {
    trade_msg_store = sold ∷ [];
    token_store = 11 ∷ [];
    token_data_store = (11, record nifty_call { total_traded = 2 }) ∷ [];
    con_rev_q = record { size = 0; ptr_q = [] };
  };
}

-- One sale of 100.
program_runs :
    main_loop fine config 32 files records [] [] [] program (sale 1 ∷ []) []
    ≡ ok (some (after, traded))
unfolding main_loop feed_loop on_datagram on_message write_data_in_file1 write_data_in_file on_trade
    count_lots read_bcast_msg find store insert double_to_int64 div32
program_runs = refl

main_loop-contracts_example :
    IsCollected (11 ∷ []) (sold ∷ [])
    × (uncounted (find traded.sink.token_data_store 11) ≡ some nifty_call)
unfolding find lines contract_of columns c_string atoi same_text read_digits
main_loop-contracts_example =
    main_loop-contracts fine config 32 files records [] [] [] program trace (sale 1 ∷ []) [] after
      traded 11 program_starts program_runs
