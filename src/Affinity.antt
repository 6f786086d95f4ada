-- ===== src/Affinity.antt =====
-- setaffinity.cpp, `TaskSet`: pins a thread to a core.
use real_time_cr.Prelude.{leb, if◌then◌else◌, ℕ}
use real_time_cr.Calls.{Trace, Os, recorded, is_negative, system_call_error}
use real_time_cr.Calls.Call.{sched_setaffinity}

-- The text of the status is not modelled, but which one it is: none, the wrong core, or the call's error.
pub data Status : Type 0 where
  unchanged wrong_core not_set : Status

-- `cores` is what `hardware_concurrency` says, 0 if it is not known; the core is an `unsigned int`.
unfoldable pub task_set : Os → (cores core_id : ℕ) → Trace → ℕ × Status × Trace
task_set os cores core_id t =
    let t1 = recorded os (sched_setaffinity core_id) t in
    if leb cores core_id
    then (system_call_error, wrong_core, t)
    else if is_negative (os t (sched_setaffinity core_id))
    then (system_call_error, not_set, t1)
    else (0, unchanged, t1)
