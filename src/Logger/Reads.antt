-- ===== src/Logger/Reads.antt =====
-- The moves of the background thread keep the invariant of the logger.
use real_time_cr.Prelude.{
  ltb, if◌then◌else◌, Bool-cases, length, take, length-append, ℕ, suc, ◌+◌, ◌≤◌, ◌<◌, ◌≡◌, refl,
  sym, ap, ◌∙◌, inl, inr, Bool, true, false, not, ◌&&◌, some, List, [], ◌∷◌, ◌++◌, arith, subst,
  take-get_elem?,
}
use real_time_cr.Logger.{
  Writer, Reader, LogMsg, Logger, read_move, update, fetch_read, take_record, no_log_msg,
  clear_flag, print, level_count, System, logger_queue_size, draining,
}
use real_time_cr.Logger.Writer.{between, waiting, storing, flagging}
use real_time_cr.Logger.Reader.{start, spinning, taking, clearing, printing, crashed}
use real_time_cr.Logger.Slots.{slot, Slots, Slots-clear, Slots-take, update-other, slot-ne_sym}
use real_time_cr.Logger.Invariant.{Inv, WriterAt, stored, accepted}
use real_time_cr.Logger.Moves.{at}

pub spin_ends : (exit flag : Bool) → flag ≡ true → (not exit && not flag) ≡ false
spin_ends exit flag e = ground arith

pub spin_lasts : (exit flag : Bool) → exit ≡ false → flag ≡ false → (not exit && not flag) ≡ true
spin_lasts exit flag e e2 = ground arith

pub accepted-ge : (w : Writer) (p : ℕ) → p ≤ accepted w p
accepted-ge between p = omega arith
accepted-ge _ p = omega arith

-- The flag that the reader waits for is the flag of a message that has been placed.
flag-placed :
    {lg : List LogMsg} {n p q : ℕ} {records : ℕ → LogMsg} {flag : ℕ → Bool}
    → Slots lg n n p q records flag
    → n ≤ p
    → flag (slot n) ≡ true
    → n < p
flag-placed {n = n} {p = p} h le e = elim (Bool-cases (ltb n p)) [
  | inl lt ↦ ground arith
  | inr at_end ↦ let unset = h.free n (ground arith) (omega arith) in absurd (ground (arith, unset))
]

WriterAt-taken :
    (lg : List LogMsg) (records : ℕ → LogMsg) (n p : ℕ) (w : Writer)
    → n < p
    → p ≤ n + logger_queue_size
    → WriterAt lg records n p w
    → WriterAt lg (update records (slot n) no_log_msg) n p w
WriterAt-taken lg records n p between lt near h = tt
WriterAt-taken lg records n p (waiting pos m) lt near h = h
WriterAt-taken lg records n p (storing pos m) lt near h = h
WriterAt-taken lg records n p (flagging pos) lt near (e, is, room) = (
  e,
  is ∙ ap some (sym (update-other records (slot n) (slot p) no_log_msg (slot-ne_sym n p lt room))),
  room,
)

WriterAt-printed :
    (lg : List LogMsg) (records : ℕ → LogMsg) (n p : ℕ) (w : Writer)
    → WriterAt lg records n p w
    → WriterAt lg records (suc n) p w
WriterAt-printed lg records n p between h = tt
WriterAt-printed lg records n p (waiting pos m) h = h
WriterAt-printed lg records n p (storing pos m) (e, is, room) = (e, is, omega arith)
WriterAt-printed lg records n p (flagging pos) (e, is, room) = (e, is, omega arith)

module _ (l : Logger) (out lg : List LogMsg) (p : ℕ) where
  start-Inv :
      (w : Writer) → Inv (at l w start out lg) p → Inv (fetch_read spinning (at l w start out lg)) p
  unfolding fetch_read
  start-Inv w h = record {
    running = h.running;
    small = h.small;
    total = h.total;
    writes = h.writes;
    reads = let le = accepted-ge w p in ground (arith, h.reads, h.behind, h.total, h.small, le);
    behind = h.behind;
    near = h.near;
    delivered = h.delivered;
    slots = h.slots;
    writer_at = h.writer_at;
    reader_at = ap slot h.reads;
  }

  spin-Inv :
      (w : Writer) (c : ℕ)
      → l.flag c ≡ true
      → Inv (at l w (spinning c) out lg) p
      → Inv (at l w (taking c) out lg) p
  spin-Inv w c set h = record {
    running = h.running;
    small = h.small;
    total = h.total;
    writes = h.writes;
    reads = h.reads;
    behind = h.behind;
    near = h.near;
    delivered = h.delivered;
    slots = h.slots;
    writer_at = h.writer_at;
    reader_at = (h.reader_at, flag-placed h.slots h.behind (ap l.flag (sym h.reader_at) ∙ set));
  }

  take-Inv :
      (w : Writer) (c : ℕ)
      → Inv (at l w (taking c) out lg) p
      → Inv (take_record c (clearing c (l.records c)) (at l w (taking c) out lg)) p
  unfolding take_record
  take-Inv w c h =
      let (e, lt) = h.reader_at in
      let moved : ℕ → System = λ q.
        at (record l { records = update l.records q no_log_msg }) w (clearing q (l.records q)) out
          lg in
      subst (λ q. Inv (moved q) p) (sym e)
        record {
          running = h.running;
          small = h.small;
          total = h.total;
          writes = h.writes;
          reads = h.reads;
          behind = h.behind;
          near = h.near;
          delivered = h.delivered;
          slots = Slots-take lt h.near h.slots;
          writer_at = WriterAt-taken lg l.records (length out) p w lt h.near h.writer_at;
          reader_at = (refl, lt, h.slots.held (length out) (omega arith) lt);
        }

  clear-Inv :
      (w : Writer) (c : ℕ) (m : LogMsg)
      → Inv (at l w (clearing c m) out lg) p
      → Inv (clear_flag c (printing m) (at l w (clearing c m) out lg)) p
  unfolding clear_flag
  clear-Inv w c m h =
      let (e, lt, is) = h.reader_at in
      let moved : ℕ → System =
        λ q. at (record l { flag = update l.flag q false }) w (printing m) out lg in
      subst (λ q. Inv (moved q) p) (sym e)
        record {
          running = h.running;
          small = h.small;
          total = h.total;
          writes = h.writes;
          reads = h.reads;
          behind = h.behind;
          near = h.near;
          delivered = h.delivered;
          slots = Slots-clear lt h.near h.slots;
          writer_at = h.writer_at;
          reader_at = (lt, is);
        }

  printed-Inv :
      (w : Writer) (m : LogMsg)
      → Inv (at l w (printing m) out lg) p
      → Inv (at l w start (out ++ (m ∷ [])) lg) p
  printed-Inv w m h =
      let (lt, is) = h.reader_at in
      let longer : length (out ++ (m ∷ [])) ≡ suc (length out) =
        omega (arith, length-append out (m ∷ [])) in
      record {
        running = h.running;
        small = h.small;
        total = h.total;
        writes = h.writes;
        reads = h.reads ∙ sym longer;
        behind = omega arith;
        near = omega (arith, h.near);
        delivered =
            ap (λ o. o ++ (m ∷ [])) h.delivered
            ∙ take-get_elem? (length out) lg is
            ∙ ap (λ n. take n lg) (sym longer);
        slots = subst (λ n. Slots lg n n p (stored w p) l.records l.flag) (sym longer) h.slots;
        writer_at =
            subst (λ n. WriterAt lg l.records n p w) (sym longer)
              (WriterAt-printed lg l.records (length out) p w h.writer_at);
        reader_at = tt;
      }

  crashed-Inv :
      (w : Writer) (m : LogMsg)
      → level_count ≤ m.level
      → Inv (at l w (printing m) out lg) p
      → Inv (at l w crashed out lg) p
  crashed-Inv w m high h = record {
    running = h.running;
    small = h.small;
    total = h.total;
    writes = h.writes;
    reads = h.reads;
    behind = h.behind;
    near = h.near;
    delivered = h.delivered;
    slots = h.slots;
    writer_at = h.writer_at;
    reader_at = (h.reader_at.0, (m, h.reader_at.1, high));
  }

  pub read_move-Inv :
      (w : Writer) (r : Reader) → Inv (at l w r out lg) p → Inv (read_move (at l w r out lg)) p
  unfolding read_move print
  read_move-Inv w start h =
      let fetched = fetch_read spinning (at l w start out lg) in
      subst (λ b. Inv (if b then at l w draining out lg else fetched) p) (sym h.running)
        (start-Inv w h)
  read_move-Inv w (spinning c) h = elim (Bool-cases (l.flag c)) [
    | inl set ↦
        subst (λ b. Inv (if b then at l w (spinning c) out lg else at l w (taking c) out lg) p)
          (sym (spin_ends l.exit (l.flag c) set)) (spin-Inv w c set h)
    | inr unset ↦
        subst (λ b. Inv (if b then at l w (spinning c) out lg else at l w (taking c) out lg) p)
          (sym (spin_lasts l.exit (l.flag c) h.running unset)) h
  ]
  read_move-Inv w (taking c) h = take-Inv w c h
  read_move-Inv w (clearing c m) h = clear-Inv w c m h
  read_move-Inv w (printing m) h = elim (Bool-cases (ltb m.level level_count)) [
    | inl e ↦ rw (print, e) (printed-Inv w m h)
    | inr e ↦ rw (print, e) (crashed-Inv w m (ground arith) h)
  ]
  read_move-Inv w crashed h = h
  read_move-Inv w _ h = elim h.reader_at [ ]
