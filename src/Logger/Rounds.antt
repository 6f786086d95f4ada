-- ===== src/Logger/Rounds.antt =====
-- The logger gets on: after so many rounds of the two threads every accepted message is in the file.
use real_time_cr.Prelude.{
  ltb, Bool-cases, length, length-append, ℕ, zero, suc, ◌+◌, ◌^◌, ◌≤◌, ◌<◌, ◌≡◌, refl, sym, ap, ◌∙◌,
  inl, inr, [], ◌∷◌, arith, subst, take-all,
}
use real_time_cr.Logger.{
  System, Writer, Reader, write_move, read_move, print, fetch_read, take_record, clear_flag,
}
use real_time_cr.Logger.Writer.{between, waiting, storing, flagging}
use real_time_cr.Logger.Reader.{start, spinning, printing, drain_printing}
use real_time_cr.Logger.Moves.{at, Sound}
use real_time_cr.Logger.Delivery.{
  Run, Run-Sound, logged-write_move, logged-read_move, write_move-Sound, read_move-Sound,
}
use real_time_cr.Logger.Progress.{ArePrintable, call_moves, reads_left, write-goes_on, read-goes_on}
use real_time_cr.Logger.Invariant.{Inv}

-- A move of the main thread and one of the background thread.
abbrev pub round : System → System
round s = read_move (write_move s)

abbrev pub rounds : ℕ → System → System
rounds zero s = s
rounds (suc k) s = rounds k (round s)

-- The moves that are left.
abbrev pub left : System → ℕ
left s = call_moves s.writer + reads_left (length s.logged) (length s.output) s.reader

written_same :
    (s : System) → ((write_move s).output ≡ s.output) × ((write_move s).reader ≡ s.reader)
unfolding write_move
written_same s = go s.writer
  where
    go :
        (w : Writer)
        → let t = write_move (at s.logger w s.reader s.output s.logged) in
          (t.output ≡ s.output) × (t.reader ≡ s.reader)
    go between = (refl, refl)
    go (waiting pos m) = ground arith
    go (storing pos m) = (refl, refl)
    go (flagging pos) = (refl, refl)

read_same :
    (s : System)
    → ((read_move s).writer ≡ s.writer) × (length s.output ≤ length (read_move s).output)
unfolding read_move fetch_read take_record clear_flag print
read_same s = go s.reader
  where
    go :
        (r : Reader)
        → let t = read_move (at s.logger s.writer r s.output s.logged) in
          (t.writer ≡ s.writer) × (length s.output ≤ length t.output)
    go start = ground arith
    go (spinning c) = ground arith
    go (printing m) = ground (arith, length-append s.output (m ∷ []))
    go (drain_printing m) = ground (arith, length-append s.output (m ∷ []))
    go _ = (refl, omega arith)

logged-round : (s : System) → (round s).logged ≡ s.logged
logged-round s = logged-read_move (write_move s) ∙ logged-write_move s

left-write_move :
    (s : System)
    → left (write_move s)
      ≡ call_moves (write_move s).writer + reads_left (length s.logged) (length s.output) s.reader
left-write_move s = λ i.
    call_moves (write_move s).writer
    + reads_left (length (logged-write_move s i)) (length ((written_same s).0 i))
        ((written_same s).1 i)

left-read_move :
    (s : System)
    → left (read_move s)
      ≡ call_moves s.writer
        + reads_left (length s.logged) (length (read_move s).output) (read_move s).reader
left-read_move s = λ i.
    call_moves ((read_same s).0 i)
    + reads_left (length (logged-read_move s i)) (length (read_move s).output) (read_move s).reader

-- The reader has no more left than before, and less if it has a message to read.
read-left :
    (s : System) (p : ℕ)
    → Inv s p
    → ArePrintable s.logged
    → length s.output < length s.logged
    → (left (read_move s) ≤ left s) × (length s.output < p → left (read_move s) < left s)
read-left s p h levels lt =
    let (same, fall) = read-goes_on s.logger s.output s.logged p s.writer s.reader h levels lt in
    (omega (arith, left-read_move s, same), λ ahead. omega (arith, left-read_move s, fall ahead))

round-left :
    (s : System)
    → Sound s
    → ArePrintable s.logged
    → length s.output < length s.logged
    → left (round s) < left s
round-left s (p, h) levels lt =
    elim (write-goes_on s.logger s.output s.logged p s.writer s.reader h lt) [
      | inl less ↦
          let (q, g) = write_move-Sound s (p, h) in
          let levels_t : ArePrintable (write_move s).logged =
            subst ArePrintable (sym (logged-write_move s)) levels in
          let before : length (write_move s).output < length (write_move s).logged =
            omega (arith, lt, ap length (written_same s).0, ap length (logged-write_move s)) in
          omega (arith, less, left-write_move s, (read-left (write_move s) q g levels_t before).0)
      | inr (still, ahead) ↦
          omega (arith, ap (λ t. left (read_move t)) still, (read-left s p h levels lt).1 ahead)
    ]

-- Rounds take nothing out of the file, and keep what `Sound` says.
rounds-keep :
    (k : ℕ) (s : System)
    → Sound s
    → ((rounds k s).logged ≡ s.logged)
      × (length s.output ≤ length (rounds k s).output)
      × Sound (rounds k s)
rounds-keep zero s h = (refl, omega arith, h)
rounds-keep (suc k) s h =
    let (same, le, g) =
      rounds-keep k (round s) (read_move-Sound (write_move s) (write_move-Sound s h)) in
    (
      same ∙ logged-round s,
      omega (arith, le, (read_same (write_move s)).1, ap length (written_same s).0),
      g,
    )

rounds-reach :
    (k : ℕ) (s : System)
    → Sound s
    → ArePrintable s.logged
    → left s ≤ k
    → length s.logged ≤ length (rounds k s).output
rounds-reach zero s h levels enough = omega arith
rounds-reach (suc k) s h levels enough =
    elim (Bool-cases (ltb (length s.output) (length s.logged))) [
      | inl more ↦
          let lt : length s.output < length s.logged = ground arith in
          let levels_r : ArePrintable (round s).logged =
            subst ArePrintable (sym (logged-round s)) levels in
          let fewer = round-left s h levels lt in
          omega (
            arith,
            ap length (logged-round s),
            rounds-reach k (round s) (read_move-Sound (write_move s) (write_move-Sound s h))
                levels_r (omega arith),
          )
      | inr all ↦ let (same, le, g) = rounds-keep (suc k) s h in ground (arith, le)
    ]

-- From every state reached with fewer than 2 ^ 63 calls of `log`, where every accepted message has a level from
-- TRACE to REVY, as many rounds as there are moves left, in each of which each thread makes one move, bring
-- all that `log` has accepted to the file: neither thread waits forever.
pub rounds-deliver :
    {n : ℕ} {s : System} (k : ℕ)
    → Run n s
    → n < 2 ^ 63
    → ArePrintable s.logged
    → left s ≤ k
    → (rounds k s).output ≡ s.logged
rounds-deliver {s = s} k r few levels enough =
    let h = Run-Sound r few in
    let (same, le, g) = rounds-keep k s h in
    let reach = rounds-reach k s h levels enough in
    g.1.delivered
    ∙ take-all (length (rounds k s).output) (rounds k s).logged
        (omega (arith, ap length same, reach))
    ∙ same
