-- ===== src/Logger/Exit.antt =====
-- What the background thread does after `exit`.
use real_time_cr.Prelude.{length, ℕ, zero, suc, ◌^◌, ◌<◌, ◌≡◌, refl, ap, ◌∙◌, List, arith, subst}
use real_time_cr.Logger.{
  System, Reader, LogMsg, Logger, read_move, print, exit, take_record, no_log_msg, clear_flag,
}
use real_time_cr.Logger.Writer.{between}
use real_time_cr.Logger.Reader.{spinning, crashed}
use real_time_cr.Logger.Moves.{at, Sound}
use real_time_cr.Logger.Invariant.{Inv}
use real_time_cr.Logger.Delivery.{Run, Run-Sound}

-- Moves of the background thread alone.
abbrev pub reads : ℕ → System → System
reads zero s = s
reads (suc k) s = reads k (read_move s)

-- The record of a slot without a message has no level.
spin-crashes :
    (l : Logger) (c : ℕ) (out lg : List LogMsg)
    → l.records c ≡ no_log_msg
    → (reads 4 (exit (at l between (spinning c) out lg))).reader ≡ crashed
unfolding exit read_move take_record clear_flag print
spin-crashes l c out lg e = rw e refl

all-placed :
    {l : Logger} {r : Reader} {lg : List LogMsg} {p : ℕ}
    → Inv (at l between r lg lg) p
    → p ≡ length lg
all-placed h = h.total

idle-blank :
    {l : Logger} {c : ℕ} {lg : List LogMsg} {p : ℕ}
    → Inv (at l between (spinning c) lg lg) p
    → l.records c ≡ no_log_msg
idle-blank {l} {c} {lg} {p} h =
    ap l.records h.reader_at ∙ h.slots.blank (length lg) (omega (arith, h.total)) (omega arith)

-- If `exit` comes while no call of `log` is running, the file holds all that was logged and the background
-- thread waits for the next message, then this thread takes a slot without a message, whose level is
-- out of the range of `levels`.
pub exit-crashes :
    {n : ℕ} {s : System} (c : ℕ)
    → Run n s
    → n < 2 ^ 63
    → s.writer ≡ between
    → s.reader ≡ spinning c
    → s.output ≡ s.logged
    → (reads 4 (exit s)).reader ≡ crashed
exit-crashes {s = s} c r few ew er eo =
    let same : s ≡ at s.logger between (spinning c) s.logged s.logged =
      λ i. at s.logger (ew i) (er i) (eo i) s.logged in
    let (p, h) = subst Sound same (Run-Sound r few) in
    ap (λ t. (reads 4 (exit t)).reader) same
    ∙ spin-crashes s.logger c s.logged s.logged (idle-blank h)
