-- ===== src/Start/Loop.antt =====
-- When `main` gets to its loop.
use real_time_cr.Prelude.{
  ltb, length, sym, ◌==◌, ◌!=◌, ℕ, ◌-◌, ◌%◌, ◌^◌, ◌≡◌, ◌⊎◌, inl, inr, Bool, true, false, not, ◌&&◌,
  Option, List, [], ◌∷◌, ◌++◌, arith,
}
use real_time_cr.Calls.{
  key_file, Call, Trace, Os, recorded, is_negative, system_call_error, sched_setaffinity,
}
use real_time_cr.Calls.Call.{ftok, shmget, shmat, socket, setsockopt, bind, close}
use real_time_cr.Calls.SocketOption.{so_rcvbuf, so_reuseaddr, ip_add_membership}
use real_time_cr.Start.{
  open_feed, Config, Outcome, running, TokenDataStore, atoi, source_multi_cast_port_number,
  start_up, open_queue, no_queue, receiver_core_id, new_queue, Attached, assert_failed,
  path_overrun, kept_queue, if_attached, shm_file_path, c_string, file_digester, contract_file_path,
}
use real_time_cr.Contract.{TokenDataStore}
use real_time_cr.FileDigester.Text.{atoi, c_string}
use real_time_cr.FileDigester.{file_digester}

-- A call that the program takes for done.
abbrev pub is_done : Call → ℕ → Bool
is_done shmat r = r != 2 ^ 64 - 1
is_done (ftok path) r = r != system_call_error
is_done shmget r = r != system_call_error
is_done (setsockopt fd so_rcvbuf) r = r == 0
is_done _ r = not (is_negative r)

abbrev pub all_done : Trace → Bool
all_done [] = true
all_done ((c, r) ∷ t) = is_done c r && all_done t

all_done-append :
    (t : Trace) (c : Call) (r : ℕ) → all_done (t ++ ((c, r) ∷ [])) ≡ all_done t && is_done c r
all_done-append [] c r = ground arith
all_done-append ((d, q) ∷ t) c r = ground (arith, all_done-append t c r)

abbrev is_attached : Attached → Bool
is_attached kept_queue = true
is_attached new_queue = true
is_attached _ = false

abbrev pub is_running : Outcome → Bool
is_running (running _) = true
is_running _ = false

module _ (os : Os) (config : Config) (ip_addr_len : ℕ) where
  open_feed-running :
      (td : TokenDataStore) (t : Trace)
      → all_done t ≡ true
      → let (o, t') = open_feed os config ip_addr_len td t in is_running o ≡ all_done t'
  unfolding open_feed
  open_feed-running td t h =
      let fd = os t socket in
      let t1 = recorded os socket t in
      let t2 = recorded os (setsockopt fd so_rcvbuf) t1 in
      let t3 = recorded os (setsockopt fd so_reuseaddr) t2 in
      let port = atoi (config source_multi_cast_port_number) % 2 ^ 16 in
      let t4 = recorded os (bind fd port) t3 in
      let e1 = all_done-append t socket fd in
      let e2 = all_done-append t1 (setsockopt fd so_rcvbuf) (os t1 (setsockopt fd so_rcvbuf)) in
      let e3 =
        all_done-append t2 (setsockopt fd so_reuseaddr) (os t2 (setsockopt fd so_reuseaddr)) in
      let e4 = all_done-append t3 (bind fd port) (os t3 (bind fd port)) in
      let e5 =
        all_done-append t4 (setsockopt fd ip_add_membership)
          (os t4 (setsockopt fd ip_add_membership)) in
      let c : (t : Trace) → all_done t ≡ false → false ≡ all_done (recorded os (close fd) t) =
        λ t bad. ground (arith, all_done-append t (close fd) (os t (close fd))) in
      ground (
        arith,
        e1,
        e2,
        e3,
        e4,
        e5,
        c t2,
        c t3,
        c t4,
        c (recorded os (setsockopt fd ip_add_membership) t4),
      )

  open_queue-done :
      (path : List ℕ)
      → let (queue, t) = open_queue os path 0 [] in
        ((queue ≡ new_queue) × (all_done t ≡ true) × (ltb (length path) 1024 ≡ true))
        ⊎ ((is_attached queue ≡ false) × ((ltb (length path) 1024 && all_done t) ≡ false))
  unfolding open_queue key_file
  open_queue-done path = ground arith

  stopped :
      (queue : Attached) (t : Trace) (rest : Outcome × Trace) (fits : Bool)
      → is_attached queue ≡ false
      → (fits && all_done t) ≡ false
      → let (o, t') = if_attached queue t rest in is_running o ≡ fits && all_done t'
  stopped assert_failed t rest fits h bad = sym bad
  stopped path_overrun t rest fits h bad = sym bad
  stopped no_queue t rest fits h bad = sym bad
  stopped kept_queue t rest fits h bad = cc
  stopped new_queue t rest fits h bad = cc

  -- `main` gets to its loop exactly when the path of the queue has fewer than 1024 bytes and every call of the operating
  -- system that it has made has come out as the program wants it, whether or not the contract file can be opened.
  pub start_up-running :
      (files : List ℕ → Option (List ℕ))
      → let (o, t) = start_up os config ip_addr_len files [] in
        is_running o ≡ ltb (length (c_string (config shm_file_path))) 1024 && all_done t
  unfolding start_up
  start_up-running files =
      let path = c_string (config shm_file_path) in
      let (queue, t1) = open_queue os path 0 [] in
      let core = sched_setaffinity (atoi (config receiver_core_id)) in
      let e2 = all_done-append t1 core (os t1 core) in
      let e3 =
        open_feed-running (file_digester (files (config contract_file_path)) []).1
          (recorded os core t1) in
      elim (open_queue-done path) [
        | inr (none_there, bad) ↦ stopped queue t1 _ (ltb (length path) 1024) none_there bad
        | inl (there, good, fits) ↦ ground (arith, good, there, fits, e2, e3)
      ]
