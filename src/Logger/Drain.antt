-- ===== src/Logger/Drain.antt =====
-- The second loop of the background thread, which writes what is left after `exit`.
use real_time_cr.Prelude.{
  ltb, if◌then◌else◌, length, take, length-append, ℕ, zero, suc, ◌+◌, ◌-◌, ◌^◌, ◌≤◌, ◌<◌, ◌≡◌, refl,
  sym, ap, ◌∙◌, true, false, List, [], ◌∷◌, ◌++◌, arith, get_elem?-All, subst, take-get_elem?,
  take-all,
}
use real_time_cr.Logger.{
  System, LogMsg, Logger, read_move, print, exit, logger_queue_size, next_index, fetch_read, update,
  take_record, no_log_msg, clear_flag, level_count, checking, drain_printing, crashed, drain_taking,
}
use real_time_cr.Logger.Writer.{between}
use real_time_cr.Logger.Reader.{start, draining, done}
use real_time_cr.Logger.Moves.{at, Sound}
use real_time_cr.Logger.Slots.{slot, Slots, Slots-clear, Slots-take}
use real_time_cr.Logger.Progress.{ArePrintable}
use real_time_cr.Logger.Delivery.{Run, Run-Sound}
use real_time_cr.Logger.Exit.{reads}

-- The ring after the message in the slot `c` has been written.
abbrev emptied : Logger → ℕ → Logger
emptied l c = record l {
  read_index = next_index l.read_index;
  records = update l.records c no_log_msg;
  flag = update l.flag c false;
}

check-set :
    (l : Logger) (out lg : List LogMsg) (c : ℕ)
    → l.flag c ≡ true
    → read_move (at l between (checking c) out lg) ≡ at l between (drain_taking c) out lg
unfolding read_move
check-set l out lg c set = ap (λ b. at l between (if b then drain_taking c else done) out lg) set

print-message :
    (l : Logger) (out lg : List LogMsg) (m : LogMsg)
    → ltb m.level level_count ≡ true
    → read_move (at l between (drain_printing m) out lg)
      ≡ at l between draining (out ++ (m ∷ [])) lg
unfolding read_move print
print-message l out lg m fits =
    ap (λ b. if b then at l between draining (out ++ (m ∷ [])) lg else at l between crashed out lg)
      fits

-- A round of the loop writes one message.
drain-message :
    (l : Logger) (out lg : List LogMsg)
    → let c = slot l.read_index in
      l.flag c ≡ true
      → ltb (l.records c).level level_count ≡ true
      → reads 5 (at l between draining out lg)
        ≡ at (emptied l c) between draining (out ++ (l.records c ∷ [])) lg
unfolding read_move fetch_read take_record clear_flag
drain-message l out lg set fits =
    let c = slot l.read_index in
    ap (reads 3) (check-set (record l { read_index = next_index l.read_index }) out lg c set)
    ∙ print-message (emptied l c) out lg (l.records c) fits

drain-message_at :
    (l : Logger) (out lg : List LogMsg) (c : ℕ)
    → slot l.read_index ≡ c
    → l.flag c ≡ true
    → ltb (l.records c).level level_count ≡ true
    → reads 5 (at l between draining out lg)
      ≡ at (emptied l c) between draining (out ++ (l.records c ∷ [])) lg
drain-message_at l out lg c e =
    subst
      (λ d.
        l.flag d ≡ true
        → ltb (l.records d).level level_count ≡ true
        → reads 5 (at l between draining out lg)
          ≡ at (emptied l d) between draining (out ++ (l.records d ∷ [])) lg)
      e (drain-message l out lg)

-- The loop ends at a slot without a message.
drain-end :
    (l : Logger) (out lg : List LogMsg)
    → l.flag (slot l.read_index) ≡ false
    → ((reads 2 (at l between draining out lg)).reader ≡ done)
      × ((reads 2 (at l between draining out lg)).output ≡ out)
unfolding read_move fetch_read
drain-end l out lg unset = rw unset (refl, refl)

-- The moves for so many messages.
abbrev pub drain_moves : ℕ → ℕ
drain_moves zero = 2
drain_moves (suc k) = suc (suc (suc (suc (suc (drain_moves k)))))

drains :
    (k : ℕ) (l : Logger) (out lg : List LogMsg)
    → length out + k ≡ length lg
    → l.read_index ≡ length out
    → length lg < 2 ^ 63
    → length lg ≤ length out + logger_queue_size
    → out ≡ take (length out) lg
    → ArePrintable lg
    → Slots lg (length out) (length out) (length lg) (length lg) l.records l.flag
    → ((reads (drain_moves k) (at l between draining out lg)).reader ≡ done)
      × ((reads (drain_moves k) (at l between draining out lg)).output ≡ lg)
drains zero l out lg total index small near got levels h =
    let unset = h.free (length out) (omega arith) (omega arith) in
    let (ends, same) = drain-end l out lg (ap (λ i. l.flag (slot i)) index ∙ unset) in
    (ends, same ∙ got ∙ take-all (length out) lg (omega arith))
drains (suc k) l out lg total index small near got levels h =
    let c = slot (length out) in
    let m = l.records c in
    let is = h.held (length out) (omega arith) (omega arith) in
    let longer : length (out ++ (m ∷ [])) ≡ suc (length out) =
      omega (arith, length-append out (m ∷ [])) in
    let fits : ltb m.level level_count ≡ true =
      let q = get_elem?-All (λ m. m.level < level_count) lg (length out) levels is in
      ground (arith, q) in
    let set : l.flag c ≡ true = h.flagged (length out) (omega arith) (omega arith) in
    let round : reads 5 (at l between draining out lg)
        ≡ at (emptied l c) between draining (out ++ (m ∷ [])) lg =
      drain-message_at l out lg c (ap slot index) set fits in
    let (ends, all) =
      drains k (emptied l c) (out ++ (m ∷ [])) lg (omega arith) (ground arith) small (omega arith)
        (ap (λ o. o ++ (m ∷ [])) got
          ∙ take-get_elem? (length out) lg is
          ∙ ap (λ n. take n lg) (sym longer))
        levels
        (subst (λ n. Slots lg n n (length lg) (length lg) (emptied l c).records (emptied l c).flag)
          (sym longer) (Slots-clear (omega arith) near (Slots-take (omega arith) near h))) in
    (
      ap (λ s. (reads (drain_moves k) s).reader) round ∙ ends,
      ap (λ s. (reads (drain_moves k) s).output) round ∙ all,
    )

-- If `exit` comes while no call of `log` is running and the background thread is between two messages, all
-- accepted messages with a level from TRACE to REVY, then this thread writes all that is left to the file,
-- and ends.
pub exit-drains :
    {n : ℕ} {s : System}
    → Run n s
    → n < 2 ^ 63
    → s.writer ≡ between
    → s.reader ≡ start
    → ArePrintable s.logged
    → let t = reads (suc (drain_moves (length s.logged - length s.output))) (exit s) in
      (t.reader ≡ done) × (t.output ≡ s.logged)
unfolding exit read_move
exit-drains {s = s} r few ew er levels =
    let same : s ≡ at s.logger between start s.output s.logged =
      λ i. at s.logger (ew i) (er i) s.output s.logged in
    let (p, h) = subst Sound same (Run-Sound r few) in
    let l = s.logger in
    let l1 : Logger = record l { exit = true } in
    let k = length s.logged - length s.output in
    let (ends, all) =
      drains k l1 s.output s.logged (omega (arith, h.behind, h.total)) h.reads h.small
        (omega (arith, h.near, h.total)) h.delivered levels
        (subst (λ q. Slots s.logged (length s.output) (length s.output) q q l.records l.flag)
          h.total h.slots) in
    (
      ap (λ t. (reads (drain_moves k) (read_move (exit t))).reader) same ∙ ends,
      ap (λ t. (reads (drain_moves k) (read_move (exit t))).output) same ∙ all,
    )
