-- ===== src/Program.antt =====
-- main.cpp, `main` as a whole: the start-up, then the loop over the datagrams with the stores that the
-- start-up has made.
use real_time_cr.Prelude.{
  if◌then◌else◌, Bool-cases, drop, Exec, ok, ℕ, ◌≡◌, refl, ap, ◌∙◌, inl, inr, Option, none, some,
  List, [], arith,
}
use real_time_cr.Start.Attached.{assert_failed, path_overrun, no_queue, kept_queue, new_queue}
use real_time_cr.Start.{
  start_up, open_feed, Config, Outcome, Running, running, contract_file_path, shm_file_path,
  open_queue, receiver_core_id, returns, Attached, if_attached,
}
use real_time_cr.Feed.{feed_loop}
use real_time_cr.Feed.Steps.{State}
use real_time_cr.Feed.Contracts.{uncounted, feed_loop-contracts}
use real_time_cr.Feed.Invariant.{feed_loop-IsValid}
use real_time_cr.FileDigester.Store.{contracts_of, first_with, find-file_digester}
use real_time_cr.FileDigester.Text.{lines, atoi, c_string}
use real_time_cr.Contract.{TokenDataStore, OmsScripInfo, find}
use real_time_cr.FileDigester.{file_digester}
use real_time_cr.Calls.{Os, Trace, sched_setaffinity, is_negative, recorded, Call}
use real_time_cr.ShmQueue.{SpscQueue}
use real_time_cr.Writer.Groups.{ConRevTradeDetails}
use real_time_cr.Writer.{Stores}
use real_time_cr.Recovery.{recovery_mgr, Attempt, World}
use real_time_cr.Writer.Collected.{IsValid}

-- The contracts that the file describes; none if it cannot be opened.
abbrev pub file_contracts : Option (List ℕ) → List OmsScripInfo
file_contracts none = []
file_contracts (some bytes) = contracts_of (drop 1 (lines bytes))

find-digested :
    (file : Option (List ℕ)) (t : ℕ)
    → find (file_digester file []).1 t ≡ first_with t (file_contracts file)
unfolding file_digester find
find-digested none t = refl
find-digested (some bytes) t = find-file_digester bytes [] t

module _ (os : Os) (config : Config) (ip_addr_len : ℕ) (files : List ℕ → Option (List ℕ)) where
  open_feed-contracts :
      (td : TokenDataStore) (t t' : Trace) (r : Running)
      → open_feed os config ip_addr_len td t ≡ (running r, t')
      → r.contracts ≡ td
  unfolding open_feed
  open_feed-contracts td t t' r h = ground arith

  -- The contracts of a program that runs are those of the file.
  start_up-contracts :
      (t t' : Trace) (r : Running)
      → start_up os config ip_addr_len files t ≡ (running r, t')
      → r.contracts ≡ (file_digester (files (config contract_file_path)) []).1
  unfolding start_up
  start_up-contracts t t' r h = go (open_queue os (c_string (config shm_file_path)) 0 t).0 h
    where
      td : TokenDataStore
      td = (file_digester (files (config contract_file_path)) []).1

      t1 : Trace
      t1 = (open_queue os (c_string (config shm_file_path)) 0 t).1

      core : Call
      core = sched_setaffinity (atoi (config receiver_core_id))

      rest : Outcome × Trace
      rest =
          if is_negative (os t1 core)
          then (returns 1, recorded os core t1)
          else open_feed os config ip_addr_len td (recorded os core t1)

      from_feed : rest ≡ (running r, t') → r.contracts ≡ td
      from_feed e = elim (Bool-cases (is_negative (os t1 core))) [
        | inl bad ↦ absurd (ground arith)
        | inr good ↦ open_feed-contracts td (recorded os core t1) t' r (rw good at e)
      ]

      go : (q : Attached) → if_attached q t1 rest ≡ (running r, t') → r.contracts ≡ td
      go assert_failed e = absurd cc
      go path_overrun e = absurd cc
      go no_queue e = absurd cc
      go kept_queue e = from_feed e
      go new_queue e = from_feed e

  -- The queue that `shmQueue1` makes is empty; `union` is what the variable on the stack holds before the
  -- first datagram, and `attempts` are the answers of the recovery server.
  module _ (spsc : SpscQueue ConRevTradeDetails) (empty_ring : spsc.Ring)
      (union garbage : List ℕ) where
    abbrev pub first_stores : TokenDataStore → Stores spsc
    first_stores td = record {
      trade_msg_store = [];
      token_store = [];
      token_data_store = td;
      con_rev_q = record { size = 0; ptr_q = empty_ring };
    }

    unfoldable pub main_loop :
        (r : Running)
        → List (List ℕ)
        → List Attempt
        → Exec (Option (State spsc garbage r.delay r.max_packet_count × World (Stores spsc)))
    main_loop r ds attempts =
        feed_loop spsc garbage r.delay r.max_packet_count ds
          (record { union = union; last_seq_no = 0 })
          (recovery_mgr attempts (first_stores r.contracts))

    -- When `main` has started and its loop has read any datagrams, the stores are valid, and a token has a contract
    -- exactly if a line of the contract file describes one: the first that does, as its columns say, but for
    -- the count of the lots. If the file cannot be opened, `main` runs with no contract at all.
    pub main_loop-contracts :
        (r : Running) (t' : Trace) (ds : List (List ℕ)) (attempts : List Attempt)
        (f : State spsc garbage r.delay r.max_packet_count) (w : World (Stores spsc)) (t : ℕ)
        → start_up os config ip_addr_len files [] ≡ (running r, t')
        → main_loop r ds attempts ≡ ok (some (f, w))
        → IsValid spsc w.sink
          × (uncounted (find w.sink.token_data_store t)
              ≡ uncounted (first_with t (file_contracts (files (config contract_file_path)))))
    unfolding main_loop
    main_loop-contracts r t' ds attempts f w t started h =
        let file = files (config contract_file_path) in
        let known = start_up-contracts [] t' r started in
        (
          feed_loop-IsValid spsc garbage r.delay r.max_packet_count ds _ f _ w
              (record { tokens_eq = refl; sided = tt }) h,
          feed_loop-contracts spsc garbage r.delay r.max_packet_count ds _ f _ w t h
              ∙ ap (λ td. uncounted (find td t)) known
              ∙ ap uncounted (find-digested file t),
        )
