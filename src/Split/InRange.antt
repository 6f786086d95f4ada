-- ===== src/Split/InRange.antt =====
-- The loops of `SplitTrade` over the middle leg stay in range, and none of them faults.
use real_time_cr.Prelude.{
  ◌==◌, if◌then◌else◌, Bool-cases, length, All, All-append, ok, ℕ, zero, suc, ◌+◌, ◌-◌, ◌≤◌, ◌≡◌,
  refl, inl, inr, Bool, true, false, ◌&&◌, Option, none, some, [], ◌∷◌, ◌++◌, arith, get_elem?-lt,
  get_elem?-All,
}
use real_time_cr.Contract.{TokenDataStore, TradeMsgStore, IsKnown}
use real_time_cr.Split.{middle_group, get_middle_qty, BcastMsg}
use real_time_cr.Split.Groups.{second_group, third_group, first_group, Picked, pick}
use real_time_cr.Split.Middle.{
  get_middle_qty, middle_loop, Middle, no_middle, is_third, status_of, stop, middle_step,
}
use real_time_cr.Message.{BcastMsg}

module _ (td : TokenDataStore) where
  -- What `GetMiddleQty` returns lies in the vector.
  middle_loop-in_range :
      (n : ℕ) (ms : TradeMsgStore) (s : Middle)
      → All (IsKnown td) ms
      → s.index + length ms ≡ n
      → s.start_index ≤ n
      → s.end_index ≤ n
      → (t : Middle) × (middle_loop td ms s ≡ ok t) × (t.start_index ≤ n) × (t.end_index ≤ n)
  unfolding middle_loop
  middle_loop-in_range n [] s k e a b = (s, refl, a, b)
  middle_loop-in_range n (m ∷ ms) s ((info, f), k) e a b =
      elim (Bool-cases (is_third (status_of info s) s)) [
        | inl third ↦ (stop s, ground (arith, f), a, omega arith)
        | inr more ↦
            let (t, run, p, q) =
              middle_loop-in_range n ms (middle_step info m s) k (ground arith) (ground arith)
                (ground arith) in
            (t, ground (arith, f), p, q)
      ]

-- `P` holds of the packets of the group, if there is one.
abbrev pub AllPicked : (BcastMsg → Type 0) → Option TradeMsgStore → Type 0
AllPicked P none = Unit
AllPicked P (some g) = All P g

-- The packets picked are packets of the vector, so what holds of those holds of these.
module _ (P : BcastMsg → Type 0) (ms : TradeMsgStore) (held : All P ms) where
  pick-All : (m : BcastMsg) (out : TradeMsgStore) → P m → All P out → All P (out ++ (m ∷ []))
  pick-All m out h k = All-append P out (m ∷ []) k (h, tt)

  first_group-ok :
      (qty k : ℕ) (p : Picked)
      → k ≤ length ms
      → All P p.packets
      → (q : Picked) × (first_group ms qty k p ≡ ok q) × All P q.packets
  unfolding first_group
  first_group-ok qty zero p h a = (p, refl, a)
  first_group-ok qty (suc k) p h a =
      let (m, e) = get_elem?-lt ms k h in
      let a1 = pick-All m p.packets (get_elem?-All P ms k held e) a in
      let (q, run, b) = first_group-ok qty k (pick m p) (omega arith) a1 in
      elim (Bool-cases ((pick m p).qty == qty)) [
        | inl stop ↦ (pick m p, ground (arith, e), a1)
        | inr more ↦ (q, ground (arith, e), b)
      ]

  second_group-ok :
      (k i : ℕ) (out : TradeMsgStore)
      → i + k ≤ length ms
      → All P out
      → (out' : TradeMsgStore) × (second_group ms i k out ≡ ok out') × All P out'
  unfolding second_group
  second_group-ok zero i out h a = (out, refl, a)
  second_group-ok (suc k) i out h a =
      let (m, e) = get_elem?-lt ms i (omega arith) in
      let a1 = pick-All m out (get_elem?-All P ms i held e) a in
      let (out', run, b) = second_group-ok k (i + 1) (out ++ (m ∷ [])) (omega arith) a1 in
      (out', ground (arith, e), b)

  third_group-ok :
      (qty k i : ℕ) (p : Picked)
      → i + k ≤ length ms
      → All P p.packets
      → (q : Picked) × (third_group ms qty i k p ≡ ok q) × All P q.packets
  unfolding third_group
  third_group-ok qty zero i p h a = (p, refl, a)
  third_group-ok qty (suc k) i p h a =
      let (m, e) = get_elem?-lt ms i (omega arith) in
      let a1 = pick-All m p.packets (get_elem?-All P ms i held e) a in
      let (q, run, b) = third_group-ok qty k (i + 1) (pick m p) (omega arith) a1 in
      elim (Bool-cases ((pick m p).qty == qty)) [
        | inl stop ↦ (pick m p, ground (arith, e), a1)
        | inr more ↦ (q, ground (arith, e), b)
      ]

  picked : (b : Bool) (out : TradeMsgStore) → All P out → AllPicked P (if b then some out else none)
  picked true out a = a
  picked false out a = tt

  pub middle_group-ok :
      (td : TokenDataStore)
      → All (IsKnown td) ms
      → (g : Option TradeMsgStore) × (middle_group td ms ≡ ok g) × AllPicked P g
  unfolding middle_group get_middle_qty
  middle_group-ok td k =
      let (mid, r0, a, b) =
        middle_loop-in_range td (length ms) ms no_middle k (omega arith) (omega arith)
          (omega arith) in
      let (one, r1, h1) =
        first_group-ok mid.qty mid.start_index (record { packets = []; qty = 0 }) a tt in
      let (two, r2, h2) =
        second_group-ok (mid.end_index - mid.start_index) mid.start_index one.packets (omega arith)
          h1 in
      let (three, r3, h3) =
        third_group-ok mid.qty (length ms - mid.end_index) mid.end_index
          (record { packets = two; qty = 0 }) (omega arith) h2 in
      (
        (if three.qty == one.qty && one.qty == mid.qty then some three.packets else none),
        ground (arith, r0, r1, r2, r3),
        picked (three.qty == one.qty && one.qty == mid.qty) three.packets h3,
      )
