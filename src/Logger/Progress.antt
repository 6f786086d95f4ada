-- ===== src/Logger/Progress.antt =====
-- The logger never waits forever: each round of the two threads has less left to do.
use real_time_cr.Prelude.{
  ltb, leb, Bool-cases, length, get_elem?, All, length-append, ℕ, suc, ◌+◌, ◌-◌, ◌*◌, ◌%◌, ◌^◌, ◌≤◌,
  ◌<◌, ◌≡◌, refl, sym, ap, ◌⊎◌, inl, inr, true, some, List, [], ◌∷◌, arith, get_elem?-All,
}
use real_time_cr.Logger.{
  Writer, Reader, LogMsg, Logger, write_move, read_move, print, level_count, fetch_read,
  logger_queue_size, take_record, clear_flag,
}
use real_time_cr.Logger.Writer.{between, waiting, storing, flagging}
use real_time_cr.Logger.Reader.{start, spinning, taking, clearing, printing, crashed}
use real_time_cr.Logger.Invariant.{Inv, claimed}
use real_time_cr.Logger.Moves.{at, claimed-ge}
use real_time_cr.Logger.Reads.{spin_ends, spin_lasts}

-- The messages have levels that `levels` has.
abbrev pub ArePrintable : List LogMsg → Type 0
ArePrintable = All (λ m. m.level < level_count)

-- The moves that a call of `log` has left, and the moves of the reader up to the end of a message.
abbrev pub call_moves : Writer → ℕ
call_moves between = 0
call_moves (waiting _ _) = 3
call_moves (storing _ _) = 2
call_moves (flagging _) = 1

abbrev pub message_moves : Reader → ℕ
message_moves start = 5
message_moves (spinning _) = 4
message_moves (taking _) = 3
message_moves (clearing _ _) = 2
message_moves (printing _) = 1
message_moves _ = 0

-- What is left for the reader, with so many messages accepted and written.
abbrev pub reads_left : ℕ → ℕ → Reader → ℕ
reads_left total n r = 5 * (total - n) + message_moves r

-- The test of the wait fails only while the reader has messages to read.
far_ahead :
    (p n c reads writes total : ℕ)
    → reads ≡ c
    → n ≤ c
    → c ≤ suc n
    → writes ≡ total
    → total ≡ suc p
    → total < 2 ^ 63
    → n ≤ p
    → leb ((reads + logger_queue_size) % 2 ^ 64) writes ≡ true
    → n < p
far_ahead p n c reads writes total e lo hi e2 e3 small le test = ground arith

printable :
    (lg : List LogMsg) (n : ℕ) {m : LogMsg}
    → ArePrintable lg
    → get_elem? lg n ≡ some m
    → m.level < level_count
printable lg n h e = get_elem?-All (λ m. m.level < level_count) lg n h e

module _ (l : Logger) (out lg : List LogMsg) (p : ℕ) where
  -- The call goes on, or the reader has a message to read.
  pub write-goes_on :
      (w : Writer) (r : Reader)
      → Inv (at l w r out lg) p
      → length out < length lg
      → (call_moves (write_move (at l w r out lg)).writer < call_moves w)
        ⊎ ((write_move (at l w r out lg) ≡ at l w r out lg) × (length out < p))
  unfolding write_move
  write-goes_on between r h lt = inr (refl, omega (arith, h.total))
  write-goes_on (waiting pos m) r h lt =
      let (lo, hi) = claimed-ge r (length out) in
      elim (Bool-cases (leb ((l.read_index + logger_queue_size) % 2 ^ 64) l.write_index)) [
        | inl full ↦ inr (
          rw full refl,
          far_ahead p (length out) (claimed r (length out)) l.read_index l.write_index (length lg)
              h.reads lo hi h.writes (sym h.total) h.small h.behind full,
        )
        | inr room ↦ inl (rw room (omega arith))
      ]
  write-goes_on (storing pos m) r h lt = inl (omega arith)
  write-goes_on (flagging pos) r h lt = inl (omega arith)

  pub read-goes_on :
      (w : Writer) (r : Reader)
      → Inv (at l w r out lg) p
      → ArePrintable lg
      → length out < length lg
      → let s = read_move (at l w r out lg) in
        (reads_left (length lg) (length s.output) s.reader ≤ reads_left (length lg) (length out) r)
        × (length out < p
            → reads_left (length lg) (length s.output) s.reader
              < reads_left (length lg) (length out) r)
  unfolding read_move fetch_read take_record clear_flag print
  read-goes_on w start h levels lt = ground arith
  read-goes_on w (spinning c) h levels lt = elim (Bool-cases (l.flag c)) [
    | inl set ↦ rw (spin_ends l.exit (l.flag c) set) (omega arith, λ _. omega arith)
    | inr unset ↦ rw (spin_lasts l.exit (l.flag c) h.running unset) (
      omega arith,
      λ ahead.
          let set = h.slots.flagged (length out) (omega arith) ahead in
          absurd (ground (arith, set, ap l.flag h.reader_at)),
    )
  ]
  read-goes_on w (taking c) h levels lt = ground arith
  read-goes_on w (clearing c m) h levels lt = ground arith
  read-goes_on w (printing m) h levels lt =
      let fits : ltb m.level level_count ≡ true =
        let q = printable lg (length out) levels h.reader_at.1 in ground (arith, q) in
      rw fits (ground (arith, length-append out (m ∷ [])))
  read-goes_on w crashed h levels lt =
      let (before, (m, is, high)) = h.reader_at in
      absurd (omega (arith, printable lg (length out) levels is))
  read-goes_on w _ h levels lt = elim h.reader_at [ ]
