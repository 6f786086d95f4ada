-- ===== src/Recovery/Delay.antt =====
-- The wait between two requests that the exchange asks for.
use real_time_cr.Prelude.{
  ltb, if◌then◌else◌, Bool-cases, Exec, ℕ, ◌-◌, ◌/◌, ◌%◌, ◌^◌, ◌≤◌, ◌<◌, ◌≡◌, refl, inl, inr, List,
  [], ◌∷◌, ◌++◌, arith,
}
use real_time_cr.Message.{BcastMsg}
use real_time_cr.Recovery.{wait, Attempt, World, slept}
use real_time_cr.Words.{sub64, lt64}

module _ {S : Type 0} (write : BcastMsg → S → Exec S) (garbage : List ℕ)
    (connection_delay max_packet_count : ℕ) where
  passed_is : (now last : ℕ) → last ≤ now → now < 2 ^ 62 → sub64 now last ≡ now - last
  passed_is now last h small = omega arith

  is_early :
      (p : ℕ)
      → p < 2 ^ 62
      → connection_delay < 2 ^ 31
      → lt64 p connection_delay ≡ ltb p connection_delay
  is_early p hp hd = ground arith

  rest_is :
      (p : ℕ)
      → p < connection_delay
      → connection_delay < 2 ^ 31
      → sub64 connection_delay p % 2 ^ 32 ≡ connection_delay - p
  rest_is p hp hd = omega arith

  -- With a clock that does not run backwards from the last request, and a delay below 2 ^ 31
  -- microseconds, the call sleeps for exactly what is left of the delay, and not at all if it has passed.
  pub wait-log :
      (a : Attempt) (w : World S)
      → w.last_recovery_time ≤ a.clock_before / 1000
      → a.clock_before / 1000 < 2 ^ 62
      → connection_delay < 2 ^ 31
      → (wait write garbage connection_delay max_packet_count a w).log ≡ (
          let passed = a.clock_before / 1000 - w.last_recovery_time in
          if ltb passed connection_delay
          then w.log ++ (slept (connection_delay - passed) ∷ [])
          else w.log)
  unfolding wait
  wait-log a w order small delay =
      let now = a.clock_before / 1000 in
      let passed = now - w.last_recovery_time in
      let e = passed_is now w.last_recovery_time order small in
      let early = is_early passed (omega arith) delay in
      elim (Bool-cases (ltb passed connection_delay)) [
        | inl soon ↦
            let rest = rest_is passed (ground arith) delay in rw (e, early, soon, rest) refl
        | inr late ↦ rw (e, early, late) refl
      ]
