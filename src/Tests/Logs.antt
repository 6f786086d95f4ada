-- ===== src/Tests/Logs.antt =====
-- Runs of the logger.
use real_time_cr.Prelude.{ℕ, zero, suc, ◌≡◌, refl, List, [], ◌∷◌, arith}
use real_time_cr.Logger.{
  System, init, log, write_move, read_move, exit, new_log_msg, fetch_read, take_record, clear_flag,
  print,
}
use real_time_cr.Logger.Reader.{crashed, done}
use real_time_cr.Logger.Delivery.{Run, begin, call, write, read, run-delivers}
use real_time_cr.Logger.Rounds.{rounds, rounds-deliver}
use real_time_cr.Logger.Exit.{reads, exit-crashes}
use real_time_cr.Logger.Drain.{exit-drains}

-- An error is logged; its message has three bytes.
abbrev message : List ℕ
message = b'b' ∷ b'a' ∷ b'd' ∷ []

abbrev called : System
called = log 3 message init

called-Run : Run 1 called
called-Run = call 3 message begin

rounds-Run : (k : ℕ) {n : ℕ} {s : System} → Run n s → Run n (rounds k s)
rounds-Run zero r = r
rounds-Run (suc k) r = rounds-Run k (read (write r))

-- Its record has been stored and flagged.
abbrev stored : System
stored = write_move (write_move (write_move called))

stored-Run : Run 1 stored
stored-Run = write (write (write called-Run))

-- The file has it, and the background thread waits.
abbrev waiting : System
waiting = rounds 9 called

run-delivers_example : (reads 5 stored).output ≡ new_log_msg 3 message ∷ []
unfolding log write_move read_move fetch_read take_record clear_flag print
run-delivers_example = run-delivers (read (read (read (read (read stored-Run))))) (omega arith)

rounds-deliver_example : (rounds 13 called).output ≡ new_log_msg 3 message ∷ []
unfolding log
rounds-deliver_example = rounds-deliver 13 called-Run (omega arith) (omega arith, tt) (omega arith)

exit-crashes_example : (reads 4 (exit waiting)).reader ≡ crashed
unfolding log write_move read_move fetch_read take_record clear_flag print
exit-crashes_example = exit-crashes 1 (rounds-Run 9 called-Run) (omega arith) refl refl refl

exit-drains_example :
    ((reads 8 (exit stored)).reader ≡ done)
    × ((reads 8 (exit stored)).output ≡ new_log_msg 3 message ∷ [])
unfolding log write_move
exit-drains_example = exit-drains stored-Run (omega arith) refl refl (omega arith, tt)
