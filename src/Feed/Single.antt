-- ===== src/Feed/Single.antt =====
-- One message in the loop of `main`: the next one, and one behind a gap.
use real_time_cr.Prelude.{
  ◌==◌, ◌||◌, not, length, get_or, Bool-cases, Exec, ok, ℕ, ◌+◌, ◌-◌, ◌^◌, ◌<◌, ◌≡◌, refl, ◌∙◌, inl,
  inr, true, false, some, List, arith,
}
use real_time_cr.ShmQueue.{SpscQueue}
use real_time_cr.Writer.Groups.{ConRevTradeDetails}
use real_time_cr.Writer.{Stores}
use real_time_cr.Feed.{write_data_in_file1, on_message, fill_gap}
use real_time_cr.Feed.Steps.{State}
use real_time_cr.Feed.Blind.{write_data_in_file1-IsBlind, write-trailer}
use real_time_cr.Message.{BcastMsg, read_bcast_msg, assign}
use real_time_cr.Message.Kind
use real_time_cr.Recovery.{World, split_recovery_data_request}
use real_time_cr.Recovery.Answer.{IsMessage, write_message}
use real_time_cr.Words.{add32, sub32, lt32}

module _ (spsc : SpscQueue ConRevTradeDetails) (garbage : List ℕ)
    (connection_delay max_packet_count : ℕ) where
  abbrev write : BcastMsg → Stores spsc → Exec (Stores spsc)
  write = write_data_in_file1 spsc garbage connection_delay max_packet_count

  -- The loop writes a message as the recovery manager does.
  pub written :
      (m u : List ℕ) (s s' : Stores spsc)
      → IsMessage m
      → write_message write garbage m s ≡ ok s'
      → write (read_bcast_msg (assign (length m) m u)) s ≡ ok s'
  unfolding write_message
  written m u s s' is h = elim (Bool-cases (get_or m 8 0 == Kind.end_of_master)) [
    | inl trailer ↦
        write-trailer spsc garbage connection_delay max_packet_count m u s is trailer
        ∙ rw trailer at h
    | inr other ↦
        write_data_in_file1-IsBlind spsc garbage connection_delay max_packet_count m u s is
        ∙ rw other at h
  ]

  pub on_next_message :
      (x : BcastMsg) (f : State spsc garbage connection_delay max_packet_count)
      (w : World (Stores spsc)) (s : Stores spsc)
      → x.seq_no ≡ f.last_seq_no + 1
      → f.last_seq_no + 1 < 2 ^ 31
      → write x w.sink ≡ ok s
      → on_message spsc garbage connection_delay max_packet_count x f w
        ≡ ok (some (record f { last_seq_no = x.seq_no }, record w { sink = s }))
  unfolding on_message
  on_next_message x f w s e small h =
      let new : (x.seq_no == 0 || not (lt32 f.last_seq_no x.seq_no)) ≡ false = ground arith in
      let one : (sub32 x.seq_no f.last_seq_no == 1) ≡ true = ground arith in rw (new, one, h) refl

  pub on_gap_message :
      (x : BcastMsg) (f : State spsc garbage connection_delay max_packet_count)
      (w w1 : World (Stores spsc)) (s : Stores spsc)
      → f.last_seq_no + 1 < x.seq_no
      → x.seq_no < 2 ^ 31
      → split_recovery_data_request write garbage connection_delay max_packet_count
          (f.last_seq_no + 1)
          (x.seq_no - 1)
          w
        ≡ ok (some (tt, w1))
      → write x w1.sink ≡ ok s
      → on_message spsc garbage connection_delay max_packet_count x f w
        ≡ ok (some (record f { last_seq_no = x.seq_no }, record w1 { sink = s }))
  unfolding on_message fill_gap
  on_gap_message x f w w1 s apart small run h =
      let new : (x.seq_no == 0 || not (lt32 f.last_seq_no x.seq_no)) ≡ false = ground arith in
      let other : (sub32 x.seq_no f.last_seq_no == 1) ≡ false = ground arith in
      let far : lt32 1 (sub32 x.seq_no f.last_seq_no) ≡ true = ground arith in
      let from_eq : add32 f.last_seq_no 1 ≡ f.last_seq_no + 1 = omega arith in
      let to_eq : sub32 x.seq_no 1 ≡ x.seq_no - 1 = omega arith in
      rw (new, other, far, from_eq, to_eq, run, h) refl
