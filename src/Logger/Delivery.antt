-- ===== src/Logger/Delivery.antt =====
-- The runs of the logger until `exit`, and what the log file holds.
use real_time_cr.Prelude.{
  length, take, length-append, ℕ, suc, ◌^◌, ◌≤◌, ◌<◌, ◌≡◌, refl, ap, List, [], ◌∷◌, arith,
}
use real_time_cr.Logger.{
  System, init, log, write_move, read_move, fetch_read, take_record, clear_flag, print, Reader,
  Writer, spinning, new_log_msg, waiting, storing, printing, drain_printing, flagging, start,
  between,
}
use real_time_cr.Logger.Invariant.{Inv-init}
use real_time_cr.Logger.Moves.{at, Sound, log-Inv, write_move-Inv, at}
use real_time_cr.Logger.Reads.{read_move-Inv}

-- The states after `n` calls of `log`, the moves of the threads in any order.
pub data Run : ℕ → System → Type 0 where
  begin : Run 0 init
  call : {n : ℕ} {s : System} (level : ℕ) (text : List ℕ) → Run n s → Run (suc n) (log level text s)
  write : {n : ℕ} {s : System} → Run n s → Run n (write_move s)
  read : {n : ℕ} {s : System} → Run n s → Run n (read_move s)

log-Sound :
    (s : System) (level : ℕ) (text : List ℕ)
    → suc (length s.logged) < 2 ^ 63
    → Sound s
    → Sound (log level text s)
log-Sound s level text few (p, h) =
    (p, log-Inv s.logger s.output s.logged p s.writer s.reader level text h few)

pub write_move-Sound : (s : System) → Sound s → Sound (write_move s)
write_move-Sound s (p, h) = write_move-Inv s.logger s.output s.logged p s.writer s.reader h

pub read_move-Sound : (s : System) → Sound s → Sound (read_move s)
read_move-Sound s (p, h) = (p, read_move-Inv s.logger s.output s.logged p s.writer s.reader h)

logged-log :
    (s : System) (level : ℕ) (text : List ℕ)
    → length (log level text s).logged ≤ suc (length s.logged)
unfolding log
logged-log s level text = go s.writer
  where
    go :
        (w : Writer)
        → length (log level text (at s.logger w s.reader s.output s.logged)).logged
          ≤ suc (length s.logged)
    go between = ground (arith, length-append s.logged (new_log_msg level text ∷ []))
    go (waiting pos m) = omega arith
    go (storing pos m) = omega arith
    go (flagging pos) = omega arith

pub logged-write_move : (s : System) → (write_move s).logged ≡ s.logged
unfolding write_move
logged-write_move s = go s.writer
  where
    go : (w : Writer) → (write_move (at s.logger w s.reader s.output s.logged)).logged ≡ s.logged
    go between = refl
    go (waiting pos m) = ground arith
    go (storing pos m) = refl
    go (flagging pos) = refl

pub logged-read_move : (s : System) → (read_move s).logged ≡ s.logged
unfolding read_move fetch_read take_record clear_flag print
logged-read_move s = go s.reader
  where
    go : (r : Reader) → (read_move (at s.logger s.writer r s.output s.logged)).logged ≡ s.logged
    go start = ground arith
    go (spinning c) = ground arith
    go (printing m) = ground arith
    go (drain_printing m) = ground arith
    go _ = refl

logged-le : {n : ℕ} {s : System} → Run n s → length s.logged ≤ n
logged-le begin = omega arith
logged-le (call {s = s} level text r) = omega (arith, logged-log s level text, logged-le r)
logged-le (write {s = s} r) = omega (arith, ap length (logged-write_move s), logged-le r)
logged-le (read {s = s} r) = omega (arith, ap length (logged-read_move s), logged-le r)

pub Run-Sound : {n : ℕ} {s : System} → Run n s → n < 2 ^ 63 → Sound s
Run-Sound begin few = (0, Inv-init)
Run-Sound (call {s = s} level text r) few =
    log-Sound s level text (omega (arith, logged-le r)) (Run-Sound r (omega arith))
Run-Sound (write {s = s} r) few = write_move-Sound s (Run-Sound r few)
Run-Sound (read {s = s} r) few = read_move-Sound s (Run-Sound r few)

-- After fewer than 2 ^ 63 calls of `log`, however the moves of the two threads interleave, the log file holds
-- the accepted messages in the order of the calls, from the first on, none lost, changed or written twice.
pub run-delivers :
    {n : ℕ} {s : System} → Run n s → n < 2 ^ 63 → s.output ≡ take (length s.output) s.logged
run-delivers r few = (Run-Sound r few).1.delivered
