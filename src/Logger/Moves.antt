-- ===== src/Logger/Moves.antt =====
-- Every move of the logger keeps its invariant.
use real_time_cr.Prelude.{
  leb, Bool-cases, length, get_elem?, length-append, ℕ, suc, ◌+◌, ◌%◌, ◌^◌, ◌≤◌, ◌<◌, ◌≡◌, refl,
  sym, ap, ◌∙◌, inl, inr, true, false, some, List, [], ◌∷◌, ◌++◌, arith, take-append_le, subst,
  get_elem?-append_some, get_elem?-append_last,
}
use real_time_cr.Logger.{
  System, Writer, Reader, LogMsg, Logger, log, write_move, lt32, perf, logger_queue_size,
  new_log_msg, next_index, start, spinning, taking, clearing, printing, crashed, update,
}
use real_time_cr.Logger.Writer.{between, waiting, storing, flagging}
use real_time_cr.Logger.Invariant.{Inv, claimed, ReaderAt, given_back, moved_out}
use real_time_cr.Words.{lt32}
use real_time_cr.Logger.Slots.{Slots-logged, Slots-store, update-same, slot, Slots-flag}

-- A state by its parts, and one that a number of placed messages fits.
abbrev pub at : Logger → Writer → Reader → List LogMsg → List LogMsg → System
at l w r out lg = record { logger = l; writer = w; reader = r; output = out; logged = lg }

abbrev pub Sound : System → Type 0
Sound s = (p : ℕ) × Inv s p

-- More messages, and more of them placed, leave the reader where it is.
ReaderAt-more :
    (lg more : List LogMsg) (n p : ℕ) (r : Reader) → ReaderAt lg n p r → ReaderAt (lg ++ more) n p r
ReaderAt-more lg more n p (clearing c m) (e, lt, is) = (e, lt, get_elem?-append_some lg more n is)
ReaderAt-more lg more n p (printing m) (lt, is) = (lt, get_elem?-append_some lg more n is)
ReaderAt-more lg more n p crashed (lt, (m, is, high)) =
    (lt, (m, get_elem?-append_some lg more n is, high))
ReaderAt-more lg more n p _ h = h

ReaderAt-placed :
    (lg : List LogMsg) (n p : ℕ) (r : Reader) → ReaderAt lg n p r → ReaderAt lg n (suc p) r
ReaderAt-placed lg n p (taking c) (e, lt) = (e, omega arith)
ReaderAt-placed lg n p (clearing c m) (e, lt, is) = (e, omega arith, is)
ReaderAt-placed lg n p (printing m) (lt, is) = (omega arith, is)
ReaderAt-placed lg n p crashed (lt, (m, is, high)) = (omega arith, (m, is, high))
ReaderAt-placed lg n p _ h = h

-- What the reader has given back and taken lies between what is in the file and what is placed.
given_back-le :
    (lg : List LogMsg) (n p : ℕ) (r : Reader)
    → ReaderAt lg n p r
    → n ≤ p
    → (given_back r n ≤ moved_out r n) × (moved_out r n ≤ p) × (n ≤ given_back r n)
given_back-le lg n p start h le = (omega arith, omega arith, omega arith)
given_back-le lg n p (spinning c) h le = (omega arith, omega arith, omega arith)
given_back-le lg n p (taking c) h le = (omega arith, omega arith, omega arith)
given_back-le lg n p (clearing c m) h le = (omega arith, omega arith, omega arith)
given_back-le lg n p (printing m) h le = (omega arith, omega arith, omega arith)
given_back-le lg n p crashed h le = (omega arith, omega arith, omega arith)
given_back-le lg n p _ h le = elim h [ ]

pub claimed-ge : (r : Reader) (n : ℕ) → (n ≤ claimed r n) × (claimed r n ≤ suc n)
claimed-ge start n = (omega arith, omega arith)
claimed-ge _ n = (omega arith, omega arith)

-- The test of the wait leaves room for one message, whether or not the reader has claimed one.
room_left :
    (p n c reads writes total : ℕ)
    → reads ≡ c
    → c ≤ suc n
    → writes ≡ total
    → total ≡ suc p
    → total < 2 ^ 63
    → n ≤ p
    → leb ((reads + logger_queue_size) % 2 ^ 64) writes ≡ false
    → p < n + logger_queue_size
room_left p n c reads writes total e hi e2 e3 small le test = ground arith

module _ (l : Logger) (out lg : List LogMsg) (p : ℕ) where
  accept-Inv :
      (r : Reader) (m : LogMsg)
      → Inv (at l between r out lg) p
      → suc (length lg) < 2 ^ 63
      → Inv
          (at
            (record l { write_index = next_index l.write_index })
            (waiting (l.write_index % logger_queue_size) m)
            r
            out
            (lg ++ (m ∷ [])))
          p
  accept-Inv r m h few =
      let longer : length (lg ++ (m ∷ [])) ≡ suc (length lg) =
        omega (arith, length-append lg (m ∷ [])) in
      let le : length out ≤ length lg = omega (arith, h.behind, h.total) in
      record {
        running = h.running;
        small = omega arith;
        total = omega (arith, h.total);
        writes = omega (arith, h.writes);
        reads = h.reads;
        behind = h.behind;
        near = h.near;
        delivered = h.delivered ∙ sym (take-append_le (length out) lg (m ∷ []) le);
        slots = Slots-logged (m ∷ []) (omega arith) h.slots;
        writer_at = (
          ground (arith, h.writes, h.total),
          ap (get_elem? (lg ++ (m ∷ []))) h.total ∙ get_elem?-append_last lg m,
        );
        reader_at = ReaderAt-more lg (m ∷ []) (length out) p r h.reader_at;
      }

  pub log-Inv :
      (w : Writer) (r : Reader) (level : ℕ) (text : List ℕ)
      → Inv (at l w r out lg) p
      → suc (length lg) < 2 ^ 63
      → Inv (log level text (at l w r out lg)) p
  unfolding log
  log-Inv between r level text h few = elim (Bool-cases (lt32 perf level)) [
    | inl e ↦ rw (log, e) h
    | inr e ↦ rw (log, e) (accept-Inv r (new_log_msg level text) h few)
  ]
  log-Inv (waiting pos m) r level text h few = h
  log-Inv (storing pos m) r level text h few = h
  log-Inv (flagging pos) r level text h few = h

  pub write_move-Inv :
      (w : Writer) (r : Reader) → Inv (at l w r out lg) p → Sound (write_move (at l w r out lg))
  unfolding write_move
  write_move-Inv between r h = (p, h)
  write_move-Inv (waiting pos m) r h =
      let (lo, hi) = claimed-ge r (length out) in
      elim (Bool-cases (leb ((l.read_index + logger_queue_size) % 2 ^ 64) l.write_index)) [
        | inl full ↦ rw (write_move, full) (p, h)
        | inr room ↦
            rw (write_move, room)
              (
                p,
                record {
                  running = h.running;
                  small = h.small;
                  total = h.total;
                  writes = h.writes;
                  reads = h.reads;
                  behind = h.behind;
                  near = h.near;
                  delivered = h.delivered;
                  slots = h.slots;
                  writer_at = (
                    h.writer_at.0,
                    h.writer_at.1,
                    room_left p (length out) (claimed r (length out)) l.read_index l.write_index
                        (length lg) h.reads hi h.writes (sym h.total) h.small (omega arith) room,
                  );
                  reader_at = h.reader_at;
                },
              )
      ]
  write_move-Inv (storing pos m) r h =
      let (e, is, room) = h.writer_at in
      let (back, le, ge) = given_back-le lg (length out) p r h.reader_at h.behind in
      let written : ℕ → System =
        λ q. at (record l { records = update l.records q m }) (flagging q) r out lg in
      (
        p,
        subst (λ q. Inv (written q) p) (sym e)
            record {
              running = h.running;
              small = h.small;
              total = h.total;
              writes = h.writes;
              reads = h.reads;
              behind = h.behind;
              near = h.near;
              delivered = h.delivered;
              slots = Slots-store m le (omega arith) h.slots;
              writer_at = (refl, is ∙ ap some (sym (update-same l.records (slot p) m)), room);
              reader_at = h.reader_at;
            },
      )
  write_move-Inv (flagging pos) r h =
      let (e, is, room) = h.writer_at in
      let (back, le, ge) = given_back-le lg (length out) p r h.reader_at h.behind in
      let flagged : ℕ → System =
        λ q. at (record l { flag = update l.flag q true }) between r out lg in
      (
        suc p,
        subst (λ q. Inv (flagged q) (suc p)) (sym e)
            record {
              running = h.running;
              small = h.small;
              total = h.total;
              writes = h.writes;
              reads = h.reads;
              behind = omega (arith, h.behind);
              near = omega (arith, room);
              delivered = h.delivered;
              slots = Slots-flag (omega arith) (omega arith) is h.slots;
              writer_at = tt;
              reader_at = ReaderAt-placed lg (length out) p r h.reader_at;
            },
      )
