-- ===== src/Start/Sockets.antt =====
-- What is open when `main` ends before its loop or gets to it, and when it does.
use real_time_cr.Prelude.{
  Bool-cases, ℕ, ◌%◌, ◌^◌, ◌≡◌, refl, ap, ◌∙◌, inl, inr, Option, List, [], ◌∷◌, ◌++◌, arith,
}
use real_time_cr.Calls.{
  key_file, Call, Trace, Os, is_negative, open_sockets, after_call, without, recorded, socket,
  close, so_reuseaddr, bind, ip_add_membership, sched_setaffinity,
}
use real_time_cr.Calls.Call.{ftok, shmget, shmat, setsockopt}
use real_time_cr.Calls.SocketOption.{so_rcvbuf}
use real_time_cr.Start.{
  open_feed, Config, Outcome, exits, running, TokenDataStore, returns, aborts, overruns,
  shm_file_path, c_string, atoi, source_multi_cast_port_number, start_up, open_queue,
  receiver_core_id, file_digester, contract_file_path,
}
use real_time_cr.Contract.{TokenDataStore}
use real_time_cr.FileDigester.Text.{atoi, c_string}
use real_time_cr.FileDigester.{file_digester}

-- The socket that an outcome keeps.
abbrev pub held : Outcome → List ℕ
held aborts = []
held overruns = []
held (exits _) = []
held (returns _) = []
held (running r) = r.socket_fd ∷ []

open_sockets-append :
    (fds : List ℕ) (t : Trace) (c : Call) (r : ℕ)
    → open_sockets fds (t ++ ((c, r) ∷ [])) ≡ after_call c r (open_sockets fds t)
open_sockets-append fds [] c r = refl
open_sockets-append fds ((d, q) ∷ t) c r = open_sockets-append (after_call d q fds) t c r

without-head : (fd : ℕ) → without fd (fd ∷ []) ≡ []
without-head fd = ground arith

module _ (os : Os) (config : Config) (ip_addr_len : ℕ) where
  closed-sockets :
      (fd : ℕ) (t : Trace)
      → open_sockets [] t ≡ fd ∷ []
      → open_sockets [] (recorded os (close fd) t) ≡ []
  closed-sockets fd t e =
      open_sockets-append [] t (close fd) (os t (close fd)) ∙ ap (without fd) e ∙ without-head fd

  open_feed-sockets :
      (td : TokenDataStore) (t : Trace)
      → open_sockets [] t ≡ []
      → let (o, t') = open_feed os config ip_addr_len td t in open_sockets [] t' ≡ held o
  unfolding open_feed
  open_feed-sockets td t h =
      let fd = os t socket in
      let t1 = recorded os socket t in
      let t2 = recorded os (setsockopt fd so_rcvbuf) t1 in
      let t3 = recorded os (setsockopt fd so_reuseaddr) t2 in
      let port = atoi (config source_multi_cast_port_number) % 2 ^ 16 in
      let t4 = recorded os (bind fd port) t3 in
      let t5 = recorded os (setsockopt fd ip_add_membership) t4 in
      let o1 = open_sockets-append [] t socket fd in
      elim (Bool-cases (is_negative fd)) [
        | inl bad ↦ rw bad (o1 ∙ ap (after_call socket fd) h ∙ rw bad refl)
        | inr good ↦
            let e1 : open_sockets [] t1 ≡ fd ∷ [] =
              o1 ∙ ap (after_call socket fd) h ∙ rw good refl in
            let e2 : open_sockets [] t2 ≡ fd ∷ [] = open_sockets-append [] t1 _ _ ∙ e1 in
            let e3 : open_sockets [] t3 ≡ fd ∷ [] = open_sockets-append [] t2 _ _ ∙ e2 in
            let e4 : open_sockets [] t4 ≡ fd ∷ [] = open_sockets-append [] t3 _ _ ∙ e3 in
            let e5 : open_sockets [] t5 ≡ fd ∷ [] = open_sockets-append [] t4 _ _ ∙ e4 in
            ground (
              arith,
              closed-sockets fd t2 e2,
              closed-sockets fd t3 e3,
              closed-sockets fd t4 e4,
              closed-sockets fd t5 e5,
              e5,
            )
      ]

  -- The calls for the queue open no socket.
  open_queue-sockets :
      (path : List ℕ) (exists : ℕ) (t : Trace)
      → open_sockets [] (open_queue os path exists t).1 ≡ open_sockets [] t
  unfolding open_queue key_file
  open_queue-sockets path exists t =
      let t1 = recorded os (ftok path) t in
      let t2 = recorded os shmget t1 in
      let e1 = open_sockets-append [] t (ftok path) (os t (ftok path)) in
      let e2 = open_sockets-append [] t1 shmget (os t1 shmget) in
      let e3 = open_sockets-append [] t2 shmat (os t2 shmat) in ground (arith, key_file, e1, e2, e3)

  -- However the calls come out, `main` ends before its loop with no socket open, and gets to its loop with
  -- exactly the socket of the feed open.
  pub start_up-sockets :
      (files : List ℕ → Option (List ℕ))
      → let (o, t) = start_up os config ip_addr_len files [] in open_sockets [] t ≡ held o
  unfolding start_up
  start_up-sockets files =
      let path = c_string (config shm_file_path) in
      let (queue, t1) = open_queue os path 0 [] in
      let core = sched_setaffinity (atoi (config receiver_core_id)) in
      let e1 : open_sockets [] t1 ≡ [] = open_queue-sockets path 0 [] in
      let e2 : open_sockets [] (recorded os core t1) ≡ [] =
        open_sockets-append [] t1 core (os t1 core) ∙ e1 in
      let e3 =
        open_feed-sockets (file_digester (files (config contract_file_path)) []).1
          (recorded os core t1) e2 in
      ground (arith, e1, e2, e3)
