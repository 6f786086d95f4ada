-- ===== src/ShmQueue/Laws.antt =====
-- `shmQueue1` as a bounded queue, and what its count says of it.
use real_time_cr.Prelude.{
  ltb, if◌then◌else◌, Bool-cases, length, length-append, ◌^◌, ◌<◌, ◌≡◌, refl, ◌↔◌, ◌⊎◌, inl, inr,
  none, some, List, [], ◌∷◌, ◌++◌, arith,
}
use real_time_cr.ShmQueue.{SpscQueue, dequeue, enqueue, ShmQueue1, add32, sub32}
use real_time_cr.Words.{sub32, add32}

module _ {T : Type 0} (spsc : SpscQueue T) where
  open spsc use {
    Ring, contents, capacity, ring_push, ring_pop, ring_empty, push_room, push_full, pop_none,
    pop_some,
  }

  -- Oldest first.
  abbrev pub to_list : ShmQueue1 spsc → List T
  to_list q = contents q.ptr_q

  -- `_Size` is the number of elements.
  abbrev pub IsCounted : ShmQueue1 spsc → Type 0
  IsCounted q = q.size ≡ length (to_list q)

  -- `enqueue` adds at the end while there is room, and otherwise returns `false` and adds nothing; the
  -- count goes up in both cases.
  pub enqueue-to_list :
      (x : T) (q : ShmQueue1 spsc)
      → (to_list (enqueue spsc x q).0
          ≡ (if ltb (length (to_list q)) capacity then to_list q ++ (x ∷ []) else to_list q))
        × ((enqueue spsc x q).1 ≡ ltb (length (to_list q)) capacity)
        × ((enqueue spsc x q).0.size ≡ add32 q.size 1)
  unfolding enqueue
  enqueue-to_list x q = elim (Bool-cases (ltb (length (to_list q)) capacity)) [
    | inl room ↦ let (a, b) = push_room q.ptr_q x (ground arith) in rw room (a, b, refl)
    | inr full ↦ let (a, b) = push_full q.ptr_q x (ground arith) in rw full (a, b, refl)
  ]

  -- `dequeue` takes the oldest element, or returns `false` on an empty queue; the count
  -- goes down in both cases.
  pub dequeue-to_list :
      (q : ShmQueue1 spsc)
      → ((dequeue spsc q).0.size ≡ sub32 q.size 1)
        × (((to_list q ≡ []) × ((dequeue spsc q).1 ≡ none) × (to_list (dequeue spsc q).0 ≡ []))
            ⊎ ((x : T) × (xs : List T) × (to_list q ≡ x ∷ xs)
                × ((dequeue spsc q).1 ≡ some x)
                × (to_list (dequeue spsc q).0 ≡ xs)))
  unfolding dequeue
  dequeue-to_list q = go (to_list q) refl
    where
      go :
          (l : List T)
          → to_list q ≡ l
          → ((dequeue spsc q).0.size ≡ sub32 q.size 1)
            × (((to_list q ≡ []) × ((dequeue spsc q).1 ≡ none) × (to_list (dequeue spsc q).0 ≡ []))
                ⊎ ((x : T) × (xs : List T) × (to_list q ≡ x ∷ xs)
                    × ((dequeue spsc q).1 ≡ some x)
                    × (to_list (dequeue spsc q).0 ≡ xs)))
      go [] e =
          let p = pop_none q.ptr_q e in
          (ground (arith, p), inl (e, ground (arith, p), ground (arith, p, e)))
      go (x ∷ xs) e =
          let (r, p, c) = pop_some q.ptr_q x xs e in
          (ground (arith, p), inr (x, xs, e, ground (arith, p), ground (arith, p, c)))

  -- On a queue of fewer than 2 ^ 31 elements whose count is right, `enqueue` leaves it right exactly
  -- when there is room, and `dequeue` exactly when the queue is not empty: a refused call makes the
  -- count wrong.
  pub size_drifts :
      (x : T) (q : ShmQueue1 spsc)
      → IsCounted q
      → length (to_list q) < 2 ^ 31
      → (IsCounted (enqueue spsc x q).0 ↔ length (to_list q) < capacity)
        × (IsCounted (dequeue spsc q).0 ↔ ¬ (to_list q ≡ []))
  size_drifts x q counted small =
      let (held, done, size) = enqueue-to_list x q in
      let (down, rest) = dequeue-to_list q in
      (
        (
          λ right. elim (Bool-cases (ltb (length (to_list q)) capacity)) [
            | inl room ↦ ground arith
            | inr full ↦ absurd (ground arith)
          ],
          λ room. ground (arith, length-append (to_list q) (x ∷ [])),
        ),
        (
          λ right e. elim rest [
            | inl (_, _, still) ↦ ground arith
            | inr (y, ys, cons, _, _) ↦ ground arith
          ],
          λ full. elim rest [
            | inl (e, _, _) ↦ absurd (full e)
            | inr (y, ys, cons, _, left) ↦ ground arith
          ],
        ),
      )
