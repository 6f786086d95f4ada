-- ===== src/OtherQueues.antt =====
-- shmQueue.h, `shmQueue` and `shmMPSCQueue`, which the program does not use: queues in shared memory.
-- The headers of the queues in them are not in the repository, and are a parameter.
use real_time_cr.Prelude.{
  ◌==◌, if◌then◌else◌, ℕ, ◌-◌, ◌^◌, ◌≡◌, refl, Bool, true, false, ◌&&◌, Option, none, some, List,
  [], ◌∷◌,
}
use real_time_cr.Calls.KeyFile.{too_long, unterminated, copied}
use real_time_cr.Calls.{key_file, Os, Trace, recorded, system_call_error}
use real_time_cr.Calls.Call.{ftok, shmget, shmat, shmget_excl, shmctl}

-- `ProducerConsumerQueue` and `MultipleProducerConsumerQueue`: what they hold and their operations.
pub record QueueOps (T : Type 0) : Type 1 where
  pub Ring : Type 0
  pub ring_enqueue : Ring → T → Ring × Bool
  pub ring_dequeue : Ring → Ring × Option T
  pub ring_is_empty : Ring → Bool
  pub ring_pop_front : Ring → Ring
  pub ring_front : Ring → Option T

-- How a constructor ends: `assert` fails, `ftok` reads past the end of the path, it returns with
-- `_ptrQ` not set, it calls `exit(1)`, or the memory is there, with the queue that it held or with a
-- new one.
pub data Opened : Type 0 where
  asserted overrun unset exited kept made : Opened

abbrev pub eexist : ℕ
eexist = 17

-- `shmQueue`: `errno` is what the first `shmget` left there. The parameter `exists` is not looked at,
-- and a size that does not match is only printed.
unfoldable pub open_shm_queue : Os → (path : List ℕ) → (errno exists : ℕ) → Trace → Opened × Trace
unfolding key_file
open_shm_queue os path errno exists t =
    let t1 = recorded os (ftok path) t in
    let t2 = recorded os shmget_excl t1 in
    let there = os t1 shmget_excl == system_call_error in
    let taken = there && errno == eexist in
    let t3 = if taken then recorded os shmget t2 else t2 in
    let failed = there && (if taken then os t2 shmget == system_call_error else true) in
    let t4 = if there then recorded os shmctl t3 else t3 in
    let t5 = recorded os shmat t4 in
    let attach =
      if os t (ftok path) == system_call_error
      then (unset, t1)
      else if failed
      then (unset, t3)
      else if os t4 shmat == 2 ^ 64 - 1
      then (exited, t5)
      else if taken
      then (kept, t5)
      else (made, t5) in
    elim (key_file path) [
      | too_long ↦ (asserted, t)
      | unterminated ↦ (overrun, t)
      | copied ↦ attach
    ]

-- `shmMPSCQueue`.
unfoldable pub open_mpsc_queue : Os → (path : List ℕ) → (exists : ℕ) → Trace → Opened × Trace
unfolding key_file
open_mpsc_queue os path exists t =
    let t1 = recorded os (ftok path) t in
    let t2 = recorded os shmget t1 in
    let t3 = recorded os shmat t2 in
    let attach =
      if os t (ftok path) == system_call_error
      then (exited, t1)
      else if os t1 shmget == system_call_error
      then (exited, t2)
      else if os t2 shmat == 2 ^ 64 - 1
      then (exited, t3)
      else if exists == 1
      then (kept, t3)
      else (made, t3) in
    elim (key_file path) [
      | too_long ↦ (asserted, t)
      | unterminated ↦ (overrun, t)
      | copied ↦ attach
    ]

module _ {T : Type 0} (ops : QueueOps T) where
  open ops use {Ring, ring_enqueue, ring_dequeue, ring_is_empty, ring_pop_front, ring_front}

  -- The operations of `shmQueue`; those of `shmMPSCQueue` are the same but for two that it does not have.
  unfoldable pub shm_enqueue : Ring → T → Ring × Bool
  shm_enqueue q x = ring_enqueue q x

  unfoldable pub shm_dequeue : Ring → Ring × Option T
  shm_dequeue q = ring_dequeue q

  unfoldable pub shm_is_empty : Ring → Bool
  shm_is_empty q = ring_is_empty q

  unfoldable pub shm_pop_front : Ring → Ring
  shm_pop_front q = ring_pop_front q

  unfoldable pub shm_front_ptr : Ring → Option T
  shm_front_ptr q = ring_front q

  -- `benqueue`: at each `sched_yield` the other side does something to the queue; `none` if the element is still
  -- not taken after the last of these.
  unfoldable pub benqueue : T → List (Ring → Ring) → Ring → Option Ring
  benqueue x [] q = let (r, done) = ring_enqueue q x in if done then some r else none
  benqueue x (others ∷ rest) q =
      let (r, done) = ring_enqueue q x in
      let again = benqueue x rest (others r) in if done then some r else again

  -- An element for which there is room after the first yield goes in then.
  pub benqueue-room :
      (x : T) (others : Ring → Ring) (rest : List (Ring → Ring)) (q : Ring)
      → (ring_enqueue q x).1 ≡ false
      → (ring_enqueue (others (ring_enqueue q x).0) x).1 ≡ true
      → benqueue x (others ∷ rest) q ≡ some (ring_enqueue (others (ring_enqueue q x).0) x).0
  unfolding benqueue
  benqueue-room x others [] q full room = rw (full, room) refl
  benqueue-room x others (o ∷ rest) q full room = rw (full, room) refl
