-- ===== src/Logger/Invariant.antt =====
-- The logger while it runs: the counts, the slots, and what each thread is about to do.
use real_time_cr.Prelude.{
  length, get_elem?, take, ℕ, suc, ◌+◌, ◌^◌, ◌≤◌, ◌<◌, ◌≡◌, refl, false, some, List, arith,
}
use real_time_cr.Logger.{System, Writer, Reader, LogMsg, init, logger_queue_size, level_count}
use real_time_cr.Logger.Writer.{between, waiting, storing, flagging}
use real_time_cr.Logger.Reader.{start, spinning, taking, clearing, printing, crashed}
use real_time_cr.Logger.Slots.{Slots, slot}

-- With `p` messages placed: all that calls have accepted, and those whose record is in its slot.
abbrev pub accepted : Writer → ℕ → ℕ
accepted between p = p
accepted _ p = suc p

abbrev pub stored : Writer → ℕ → ℕ
stored (flagging _) p = suc p
stored _ p = p

-- With `n` messages in the file: those that the reader has claimed, moved_out and given back.
abbrev pub claimed : Reader → ℕ → ℕ
claimed start n = n
claimed _ n = suc n

abbrev pub moved_out : Reader → ℕ → ℕ
moved_out (clearing _ _) n = suc n
moved_out (printing _) n = suc n
moved_out crashed n = suc n
moved_out _ n = n

abbrev pub given_back : Reader → ℕ → ℕ
given_back (printing _) n = suc n
given_back crashed n = suc n
given_back _ n = n

-- The message `p` is the one that the call has on its way.
abbrev pub WriterAt : List LogMsg → (ℕ → LogMsg) → ℕ → ℕ → Writer → Type 0
WriterAt lg records n p between = Unit
WriterAt lg records n p (waiting pos m) = (pos ≡ slot p) × (get_elem? lg p ≡ some m)
WriterAt lg records n p (storing pos m) =
    (pos ≡ slot p) × (get_elem? lg p ≡ some m) × (p < n + logger_queue_size)
WriterAt lg records n p (flagging pos) =
    (pos ≡ slot p) × (get_elem? lg p ≡ some (records (slot p))) × (p < n + logger_queue_size)

-- The message `n` is the next one of the file.
abbrev pub ReaderAt : List LogMsg → ℕ → ℕ → Reader → Type 0
ReaderAt lg n p start = Unit
ReaderAt lg n p (spinning c) = c ≡ slot n
ReaderAt lg n p (taking c) = (c ≡ slot n) × (n < p)
ReaderAt lg n p (clearing c m) = (c ≡ slot n) × (n < p) × (get_elem? lg n ≡ some m)
ReaderAt lg n p (printing m) = (n < p) × (get_elem? lg n ≡ some m)
ReaderAt lg n p crashed =
    (n < p) × ((m : LogMsg) × (get_elem? lg n ≡ some m) × (level_count ≤ m.level))
ReaderAt lg n p _ = ⊥

pub record Inv (s : System) (p : ℕ) : Type 0 where
  pub running : s.logger.exit ≡ false
  pub small : length s.logged < 2 ^ 63
  pub total : accepted s.writer p ≡ length s.logged
  pub writes : s.logger.write_index ≡ length s.logged
  pub reads : s.logger.read_index ≡ claimed s.reader (length s.output)
  pub behind : length s.output ≤ p
  pub near : p ≤ length s.output + logger_queue_size
  pub delivered : s.output ≡ take (length s.output) s.logged
  pub slots :
      Slots s.logged
        (moved_out s.reader (length s.output))
        (given_back s.reader (length s.output))
        p
        (stored s.writer p)
        s.logger.records
        s.logger.flag
  pub writer_at : WriterAt s.logged s.logger.records (length s.output) p s.writer
  pub reader_at : ReaderAt s.logged (length s.output) p s.reader

pub Inv-init : Inv init 0
Inv-init = record {
  running = refl;
  small = omega arith;
  total = refl;
  writes = refl;
  reads = refl;
  behind = omega arith;
  near = omega arith;
  delivered = refl;
  slots = record {
    flagged = λ i lo hi. absurd (omega arith);
    free = λ i lo hi. refl;
    held = λ i lo hi. absurd (omega arith);
    blank = λ i lo hi. refl;
  };
  writer_at = tt;
  reader_at = tt;
}
