-- ===== src/Feed.antt =====
-- main.cpp, the loop of `main` and `WriteDataInFile1`: datagrams of the feed, in the order of their
-- sequence numbers, with what is missing asked of the recovery manager. Logs and the set-up of
-- sockets, cores and configuration are not modelled; a `recvfrom` without data changes nothing.
pub mod Steps
pub mod Kept
pub mod Invariant
pub mod Contracts
pub mod Order
pub mod Descriptors
pub mod Covered
pub mod Blind
pub mod Single
pub mod Lossless
pub mod Recounted
pub mod Detection
use real_time_cr.Prelude.{
  ◌==◌, if◌then◌else◌, length, Exec, ok, ◌>>=◌, ℕ, not, ◌||◌, Option, none, some, List, [], ◌∷◌,
}
use real_time_cr.ShmQueue.{SpscQueue}
use real_time_cr.Writer.Groups.{ConRevTradeDetails}
use real_time_cr.Writer.{Stores, write_data_in_file}
use real_time_cr.Message.{BcastMsg, assign, read_bcast_msg}
use real_time_cr.Recovery.{World, split_recovery_data_request}
use real_time_cr.Words.{add32, lt32, sub32}

module _ (spsc : SpscQueue ConRevTradeDetails) (garbage : List ℕ)
    (connection_delay max_packet_count : ℕ) where
  -- `WriteDataInFile1` is `WriteDataInFile` on the global stores, which are those of `main`.
  unfoldable pub write_data_in_file1 : BcastMsg → Stores spsc → Exec (Stores spsc)
  write_data_in_file1 m s = write_data_in_file spsc m s

  -- `lstCompositeBcastMsg` as bytes, and `lnLastSeqNo`.
  pub record Feed : Type 0 where
    pub union : List ℕ
    pub last_seq_no : ℕ

  abbrev pub accept : BcastMsg → World (Stores spsc) → Exec (Option (World (Stores spsc)))
  accept m w = write_data_in_file1 m w.sink >>= λ s. ok (some (record w { sink = s }))

  -- Recovery of what lies between, then the message itself.
  unfoldable pub fill_gap : ℕ → BcastMsg → World (Stores spsc) → Exec (Option (World (Stores spsc)))
  fill_gap last m w =
      split_recovery_data_request write_data_in_file1 garbage connection_delay max_packet_count
        (add32 last 1) (sub32 m.seq_no 1) w
      >>= λ r. elim r [ none ↦ ok none | some (_, w') ↦ accept m w' ]

  abbrev pub keep_going :
      Feed → Exec (Option (World (Stores spsc))) → Exec (Option (Feed × World (Stores spsc)))
  keep_going f r = r >>= λ o. elim o [ none ↦ ok none | some w ↦ ok (some (f, w)) ]

  -- The message in the union, whose bytes are already those of the datagram.
  unfoldable pub on_message :
      BcastMsg → Feed → World (Stores spsc) → Exec (Option (Feed × World (Stores spsc)))
  on_message m f w =
      let fresh : Feed = record f { last_seq_no = m.seq_no } in
      if m.seq_no == 0 || not (lt32 f.last_seq_no m.seq_no)
      then ok (some (f, w))
      else if sub32 m.seq_no f.last_seq_no == 1
      then keep_going fresh (accept m w)
      else if lt32 1 (sub32 m.seq_no f.last_seq_no)
      then keep_going fresh (fill_gap f.last_seq_no m w)
      else ok (some (f, w))

  -- One datagram of at most `sizeof(BcastMsg)` bytes: it overwrites the front of the union.
  unfoldable pub on_datagram :
      List ℕ → Feed → World (Stores spsc) → Exec (Option (Feed × World (Stores spsc)))
  on_datagram [] f w = ok (some (f, w))
  on_datagram (b ∷ bs) f w =
      on_message (read_bcast_msg (assign (length (b ∷ bs)) (b ∷ bs) f.union))
        (record f { union = assign (length (b ∷ bs)) (b ∷ bs) f.union }) w

  unfoldable pub feed_loop :
      List (List ℕ) → Feed → World (Stores spsc) → Exec (Option (Feed × World (Stores spsc)))
  feed_loop [] f w = ok (some (f, w))
  feed_loop (d ∷ ds) f w =
      on_datagram d f w >>= λ r. elim r [ none ↦ ok none | some (f', w') ↦ feed_loop ds f' w' ]
