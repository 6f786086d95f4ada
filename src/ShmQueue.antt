-- ===== src/ShmQueue.antt =====
-- shmQueue.h, class `shmQueue1`: a queue of boost in shared memory, under a mutex, with a count.
-- The lock is held throughout an operation, so each one is a single step of the queue.
pub mod Laws
use real_time_cr.Prelude.{
  length, ℕ, ◌≤◌, ◌<◌, ◌≡◌, ◌↔◌, Bool, true, false, Option, none, some, List, [], ◌∷◌, ◌++◌,
}
use real_time_cr.Words.{add32, sub32}

-- `boost::lockfree::spsc_queue`, which is not part of the repository: its operations, what it holds,
-- oldest first, and what its documentation says of them.
pub record SpscQueue (T : Type 0) : Type 1 where
  pub Ring : Type 0
  pub capacity : ℕ
  pub contents : Ring → List T
  pub ring_push : Ring → T → Ring × Bool
  pub ring_pop : Ring → Option (T × Ring)
  pub ring_empty : Ring → Bool
  pub push_room :
      (r : Ring) (x : T)
      → length (contents r) < capacity
      → (contents (ring_push r x).0 ≡ contents r ++ (x ∷ [])) × ((ring_push r x).1 ≡ true)
  pub push_full :
      (r : Ring) (x : T)
      → capacity ≤ length (contents r)
      → (contents (ring_push r x).0 ≡ contents r) × ((ring_push r x).1 ≡ false)
  pub pop_none : (r : Ring) → contents r ≡ [] → ring_pop r ≡ none
  pub pop_some :
      (r : Ring) (x : T) (xs : List T)
      → contents r ≡ x ∷ xs
      → (r' : Ring) × (ring_pop r ≡ some (x, r')) × (contents r' ≡ xs)
  pub empty_iff : (r : Ring) → (ring_empty r ≡ true) ↔ (contents r ≡ [])

module _ {T : Type 0} (spsc : SpscQueue T) where
  open spsc use {Ring, contents, capacity, ring_push, ring_pop, ring_empty}

  -- `_Size` is an `int`.
  pub record ShmQueue1 : Type 0 where
    pub size : ℕ
    pub ptr_q : Ring

  unfoldable pub enqueue : T → ShmQueue1 → ShmQueue1 × Bool
  enqueue x q =
      let (r, done) = ring_push q.ptr_q x in (record { size = add32 q.size 1; ptr_q = r }, done)

  -- The record by reference is given back with `true`; `none` is `false`.
  unfoldable pub dequeue : ShmQueue1 → ShmQueue1 × Option T
  dequeue q = elim (ring_pop q.ptr_q) [
    | none ↦ (record q { size = sub32 q.size 1 }, none)
    | some (x, r) ↦ (record { size = sub32 q.size 1; ptr_q = r }, some x)
  ]

  unfoldable pub is_empty : ShmQueue1 → Bool
  is_empty q = ring_empty q.ptr_q
