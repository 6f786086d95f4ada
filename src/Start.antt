-- ===== src/Start.antt =====
-- main.cpp, `main` up to its loop: the configuration, the queue of reports, the core, the contracts, and the
-- socket on which the feed arrives.
pub mod Sockets
pub mod Loop
use real_time_cr.Prelude.{◌==◌, ◌!=◌, if◌then◌else◌, take, ℕ, ◌-◌, ◌%◌, ◌^◌, Option, List, []}
use real_time_cr.Calls.KeyFile.{too_long, unterminated, copied}
use real_time_cr.Calls.{key_file, Trace, Os, recorded, is_negative, system_call_error}
use real_time_cr.Calls.Call.{
  ftok, shmget, shmat, sched_setaffinity, socket, setsockopt, bind, close,
}
use real_time_cr.Calls.SocketOption.{so_rcvbuf, so_reuseaddr, ip_add_membership}
use real_time_cr.Contract.{TokenDataStore}
use real_time_cr.FileDigester.Text.{atoi, c_string}
use real_time_cr.FileDigester.{file_digester}
use real_time_cr.Words.{widen}

-- What is asked of `ConfigReader`, whose code is not in the repository: a text for each property.
pub data Property : Type 0 where
  receiver_core_id stream_id single_recovery_count logger_core_id log_file_name : Property
  recovery_ip_addr recovery_port source_multi_cast_port_number source_multi_cast_ip_addr : Property
  interface_ip_addr contract_file_path shm_file_path connection_delay : Property

abbrev pub Config : Type 0
Config = Property → List ℕ

-- Where `main` ends before its loop: a failed `assert`, a read past the end of an array, `exit` in a
-- constructor, or `return`. `running` has what the loop and the recovery manager work with.
pub record Running : Type 0 where
  pub socket_fd : ℕ
  pub contracts : TokenDataStore
  pub recovery_stream : ℕ
  pub recovery_port : ℕ
  pub recovery_address : List ℕ
  pub max_packet_count : ℕ
  pub delay : ℕ

pub data Outcome : Type 0 where
  aborts overruns : Outcome
  exits : (code : ℕ) → Outcome
  returns : (code : ℕ) → Outcome
  running : Running → Outcome

-- The constructor of `shmQueue1`: a failed `assert`, a read past the end of the path, `exit(1)`, or
-- the queue that is there already, or an empty one.
pub data Attached : Type 0 where
  assert_failed path_overrun no_queue kept_queue new_queue : Attached

unfoldable pub open_queue : Os → (path : List ℕ) → (exists : ℕ) → Trace → Attached × Trace
unfolding key_file
open_queue os path exists t =
    let t1 = recorded os (ftok path) t in
    let t2 = recorded os shmget t1 in
    let t3 = recorded os shmat t2 in
    let attach =
      if os t (ftok path) == system_call_error
      then (no_queue, t1)
      else if os t1 shmget == system_call_error
      then (no_queue, t2)
      else if os t2 shmat == 2 ^ 64 - 1
      then (no_queue, t3)
      else if exists == 1
      then (kept_queue, t3)
      else (new_queue, t3) in
    elim (key_file path) [
      | too_long ↦ (assert_failed, t)
      | unterminated ↦ (path_overrun, t)
      | copied ↦ attach
    ]

-- `abort` or `exit(1)` in the constructor ends the program.
abbrev pub if_attached : Attached → Trace → Outcome × Trace → Outcome × Trace
if_attached assert_failed t rest = (aborts, t)
if_attached path_overrun t rest = (overruns, t)
if_attached no_queue t rest = (exits 1, t)
if_attached _ t rest = rest

module _ (os : Os) (config : Config) (ip_addr_len : ℕ) where
  -- `strncpy` and the constructor of `CRecoveryMgr`.
  abbrev pub set_up : ℕ → TokenDataStore → Running
  set_up fd td = record {
    socket_fd = fd;
    contracts = td;
    recovery_stream = atoi (config stream_id) % 2 ^ 16;
    recovery_port = atoi (config recovery_port) % 2 ^ 16;
    recovery_address = take ip_addr_len (c_string (config recovery_ip_addr));
    max_packet_count = atoi (config single_recovery_count);
    delay = widen (atoi (config connection_delay));
  }

  -- `close(m_nSockMulticast); return -1;`
  abbrev pub give_up : ℕ → Trace → Outcome × Trace
  give_up fd t = (returns system_call_error, recorded os (close fd) t)

  -- From the socket on: the options, the port and the group.
  unfoldable pub open_feed : TokenDataStore → Trace → Outcome × Trace
  open_feed td t =
      let fd = os t socket in
      let t1 = recorded os socket t in
      let t2 = recorded os (setsockopt fd so_rcvbuf) t1 in
      let t3 = recorded os (setsockopt fd so_reuseaddr) t2 in
      let port = atoi (config source_multi_cast_port_number) % 2 ^ 16 in
      let t4 = recorded os (bind fd port) t3 in
      let t5 = recorded os (setsockopt fd ip_add_membership) t4 in
      if is_negative fd
      then (returns system_call_error, t1)
      else if os t1 (setsockopt fd so_rcvbuf) != 0
      then give_up fd t2
      else if is_negative (os t2 (setsockopt fd so_reuseaddr))
      then give_up fd t3
      else if is_negative (os t3 (bind fd port))
      then give_up fd t4
      else if is_negative (os t4 (setsockopt fd ip_add_membership))
      then give_up fd t5
      else (running (set_up fd td), t5)

  -- `files` gives what a file holds, if it can be opened.
  unfoldable pub start_up : (List ℕ → Option (List ℕ)) → Trace → Outcome × Trace
  start_up files t =
      let (queue, t1) = open_queue os (c_string (config shm_file_path)) 0 t in
      let core = sched_setaffinity (atoi (config receiver_core_id)) in
      let t2 = recorded os core t1 in
      let rest =
        if is_negative (os t1 core)
        then (returns 1, t2)
        else open_feed (file_digester (files (config contract_file_path)) []).1 t2 in
      if_attached queue t1 rest
