-- ===== src/Split/Around.antt =====
-- The group that `SplitTrade` picks around the second leg of the open trades.
use real_time_cr.Prelude.{
  ◌==◌, if◌then◌else◌, ◌&&◌, Bool-cases, take, drop, length, length-append, ok, bind-eq-ok, ℕ, ◌+◌,
  ◌-◌, ◌%◌, ◌^◌, ◌≡◌, ◌≢◌, refl, sym, ap, ◌∙◌, inl, inr, true, none, some, [], ◌∷◌, ◌++◌, arith,
  subst, take-append_le, drop-append_le, take-all, drop-all,
}
use real_time_cr.Contract.{
  TokenDataStore, TradeMsgStore, Leg, fut, call, put, type_of, leg_qty, has_leg, leg_type,
  tokens_of,
}
use real_time_cr.Message.{BcastMsg}
use real_time_cr.Split.{middle_group, all_traded, ExtraDetails}
use real_time_cr.Split.Groups.{first_group, second_group, third_group, Picked}
use real_time_cr.Split.Middle.{Middle, get_middle_qty}
use real_time_cr.Split.Picked.{
  backwards, traded, first_group-Front, second_group-eq, third_group-Back,
}
use real_time_cr.Split.Sums.{IsSummed, qty_of}
use real_time_cr.Split.Third.{Third, get_middle_qty-Third}
use real_time_cr.Split.Turns.{legs_in, last_leg, Turn}
use mathlib.Core.List.{append_assoc}

take-here : (xs ys : TradeMsgStore) (n : ℕ) → length xs ≡ n → take n (xs ++ ys) ≡ xs
take-here xs ys n e = take-append_le n xs ys (omega arith) ∙ take-all n xs (omega arith)

drop-here : (xs ys : TradeMsgStore) (n : ℕ) → length xs ≡ n → drop n (xs ++ ys) ≡ ys
drop-here xs ys n e =
    drop-append_le n xs ys (omega arith) ∙ ap (λ l. l ++ ys) (drop-all n xs (omega arith))

-- Trades that are cut at `i` and at `j`.
module _ (ms seen before second rest : TradeMsgStore) (i j : ℕ) (all : ms ≡ seen ++ rest)
    (parts : seen ≡ before ++ second) (at : length before ≡ i) (end : j ≡ length seen) where
  cut-eq : ms ≡ before ++ (second ++ rest)
  cut-eq = all ∙ ap (λ l. l ++ rest) parts ∙ append_assoc before second rest

  front-eq : take i ms ≡ before
  front-eq = ap (take i) cut-eq ∙ take-here before (second ++ rest) i at

  tail-eq : drop i ms ≡ second ++ rest
  tail-eq = ap (drop i) cut-eq ∙ drop-here before (second ++ rest) i at

  back-eq : drop j ms ≡ rest
  back-eq = ap (drop j) all ∙ drop-here seen rest j (sym end)

  middle-eq :
      (part : TradeMsgStore)
      → drop i ms ≡ part ++ drop (i + (j - i)) ms
      → length part ≡ j - i
      → part ≡ second
  middle-eq part here long =
      let sizes : length seen ≡ length before + length second =
        ap length parts ∙ length-append before second in
      sym (take-here part _ (j - i) long)
      ∙ ap (take (j - i)) (sym here ∙ tail-eq)
      ∙ take-here second rest (j - i) (omega (arith, sizes, end, at))

module _ (td : TokenDataStore) where
  -- A group of three parts: `first` are the last trades in front of the second leg, from the last one
  -- back; `second` are all trades from the first one of the second leg up to the first one of the
  -- third leg; `third` are the first trades from there on. The trades of `first` and those of
  -- `third` each add up, as `int32_t`, to what is traded in front of the third leg of the leg that was
  -- traded last there.
  pub record Around (ms g : TradeMsgStore) : Type 0 where
    pub skipped : TradeMsgStore
    pub first : TradeMsgStore
    pub second : TradeMsgStore
    pub third : TradeMsgStore
    pub behind : TradeMsgStore
    pub parts : ms ≡ ((skipped ++ first) ++ second) ++ (third ++ behind)
    pub group : g ≡ (backwards first ++ second) ++ third
    pub one_leg : legs_in td (skipped ++ first) ≡ 1
    pub turn : Turn td (length (skipped ++ first)) ((skipped ++ first) ++ second)
    pub two_legs : legs_in td ((skipped ++ first) ++ second) ≡ 2
    pub next : BcastMsg
    pub rest : TradeMsgStore
    pub next_is : third ++ behind ≡ next ∷ rest
    pub three_legs : legs_in td (((skipped ++ first) ++ second) ++ (next ∷ [])) ≡ 3
    pub leg : Leg
    pub leg_is : last_leg td 0 ((skipped ++ first) ++ second) ≡ type_of leg
    pub first_qty :
        traded first % 2 ^ 32 ≡ leg_qty td (type_of leg) ((skipped ++ first) ++ second) % 2 ^ 32
    pub third_qty :
        traded third % 2 ^ 32 ≡ leg_qty td (type_of leg) ((skipped ++ first) ++ second) % 2 ^ 32

  -- The parts that the loops have picked, if the third leg begins behind `t.seen`.
  put_together :
      (ms two : TradeMsgStore) (mid : Middle) (one three : Picked) (t : Third td ms mid)
      (u : Turn td mid.start_index t.seen)
      → first_group ms mid.qty mid.start_index (record { packets = []; qty = 0 }) ≡ ok one
      → second_group ms mid.start_index (mid.end_index - mid.start_index) one.packets ≡ ok two
      → third_group ms mid.qty mid.end_index
          (length ms - mid.end_index)
          (record { packets = two; qty = 0 })
        ≡ ok three
      → one.qty ≡ mid.qty
      → three.qty ≡ mid.qty
      → mid.end_index ≡ length t.seen
      → (leg : Leg) × (last_leg td 0 t.seen ≡ type_of leg)
        × (mid.qty ≡ leg_qty td (type_of leg) t.seen % 2 ^ 32)
      → Around ms three.packets
  put_together ms two mid one three t u r1 r2 r3 q1 q3 end (leg, leg_is, qty) =
      let f = first_group-Front ms mid.qty mid.start_index _ one (omega arith) r1 in
      let (part, p2, l2, e2) =
        second_group-eq ms (mid.end_index - mid.start_index) mid.start_index one.packets two r2 in
      let b =
        third_group-Back ms mid.qty mid.end_index (length ms - mid.end_index) _ three (omega arith)
          r3 in
      let front : u.before ≡ f.before ++ f.part =
        sym (
          front-eq ms t.seen u.before (u.first ∷ u.behind) (t.next ∷ t.behind) mid.start_index
            mid.end_index t.parts u.parts u.at end)
        ∙ f.parts in
      let middle : part ≡ u.first ∷ u.behind =
        middle-eq ms t.seen u.before (u.first ∷ u.behind) (t.next ∷ t.behind) mid.start_index
          mid.end_index t.parts u.parts u.at end part p2 l2 in
      let seen : t.seen ≡ (f.before ++ f.part) ++ part =
        u.parts
        ∙ ap (λ l. l ++ (u.first ∷ u.behind)) front
        ∙ ap (λ l. (f.before ++ f.part) ++ l) (sym middle) in
      let next_is : b.part ++ b.behind ≡ t.next ∷ t.behind =
        sym b.parts
        ∙ back-eq ms t.seen u.before (u.first ∷ u.behind) (t.next ∷ t.behind) mid.start_index
            mid.end_index t.parts u.parts u.at end in
      let total = qty ∙ ap (λ l. leg_qty td (type_of leg) l % 2 ^ 32) seen in
      let sum1 : traded f.part % 2 ^ 32 ≡ mid.qty = omega (arith, f.qty, q1) in
      let sum3 : traded b.part % 2 ^ 32 ≡ mid.qty = omega (arith, b.qty, q3) in
      record {
        skipped = f.before;
        first = f.part;
        second = part;
        third = b.part;
        behind = b.behind;
        parts =
            t.parts
            ∙ ap (λ l. t.seen ++ l) (sym next_is)
            ∙ ap (λ l. l ++ (b.part ++ b.behind)) seen;
        group = b.packets ∙ ap (λ l. l ++ b.part) (e2 ∙ ap (λ l. l ++ part) f.packets);
        one_leg = subst (λ l. legs_in td l ≡ 1) front u.one_leg;
        turn =
            subst (λ l. Turn td (length (f.before ++ f.part)) l) seen
              (subst (λ n. Turn td n t.seen) (sym u.at ∙ ap length front) u);
        two_legs = subst (λ l. legs_in td l ≡ 2) seen t.two_legs;
        next = t.next;
        rest = t.behind;
        next_is = next_is;
        three_legs = subst (λ l. legs_in td (l ++ (t.next ∷ [])) ≡ 3) seen t.three_legs;
        leg = leg;
        leg_is = subst (λ l. last_leg td 0 l ≡ type_of leg) seen leg_is;
        first_qty = sum1 ∙ total;
        third_qty = sum3 ∙ total;
      }

  has_leg-traded : (k : ℕ) (ms : TradeMsgStore) → leg_qty td k ms ≢ 0 → has_leg td k ms ≡ true
  has_leg-traded k [] h = absurd (h refl)
  has_leg-traded k (m ∷ ms) h = elim (Bool-cases (leg_type td m == k)) [
    | inl this ↦ rw this refl
    | inr other ↦ let rest = has_leg-traded k ms (λ e. h (ground arith)) in rw (other, rest) refl
  ]

  -- A group that is picked around the second leg of trades of three legs has these three parts.
  pub middle_group-Around :
      (ms g : TradeMsgStore) → legs_in td ms ≡ 3 → middle_group td ms ≡ ok (some g) → Around ms g
  unfolding middle_group
  middle_group-Around ms g all h =
      let (mid, r0, h0) = bind-eq-ok (get_middle_qty td ms) _ h in
      let t = get_middle_qty-Third td ms mid all r0 in
      let (one, r1, h1) =
        bind-eq-ok (first_group ms mid.qty mid.start_index (record { packets = []; qty = 0 })) _
          h0 in
      let (two, r2, h2) =
        bind-eq-ok (second_group ms mid.start_index (mid.end_index - mid.start_index) one.packets) _
          h1 in
      let (three, r3, h3) =
        bind-eq-ok
          (third_group ms mid.qty mid.end_index (length ms - mid.end_index)
            (record { packets = two; qty = 0 }))
          _ h2 in
      let (q1, q3, group) = agreed one three mid.qty h3 in
      let count : t.at.count ≡ 2 = t.tracks.count_eq ∙ t.two_legs in
      let (leg, leg_is, last) = t.tracks.last (omega (arith, count)) in
      let start = ap (λ (x : Middle). x.start_index) t.stopped in
      let end = ap (λ (x : Middle). x.end_index) t.stopped ∙ t.tracks.index_eq in
      let qty = ap (λ (x : Middle). x.qty) t.stopped ∙ last ∙ t.tracks.qty leg in
      let turn = subst (λ n. Turn td n t.seen) (sym start) (t.tracks.turn (omega (arith, count))) in
      subst (Around ms) group
        (put_together ms two mid one three t turn r1 r2 r3 q1 q3 end (leg, leg_is, qty))
    where
      agreed :
          (one three : Picked) (qty : ℕ)
          → ok (if three.qty == one.qty && one.qty == qty then some three.packets else none)
            ≡ ok (some g)
          → (one.qty ≡ qty) × (three.qty ≡ qty) × (three.packets ≡ g)
      agreed one three qty h = (ground arith, ground arith, ground arith)

  -- Where all legs have been traded, all are there.
  pub all_traded-legs :
      (ms : TradeMsgStore) (d : ExtraDetails)
      → IsSummed td ms d
      → all_traded d ≡ true
      → (legs_in td ms ≡ 3) × (length (tokens_of [] ms) ≡ 3)
  unfolding IsSummed
  all_traded-legs ms d (q, t) h =
      let there : (g : Leg) → qty_of g d ≢ 0 → has_leg td (type_of g) ms ≡ true =
        λ g n. has_leg-traded (type_of g) ms (λ e. n (q g ∙ ap (λ k. k % 2 ^ 32) e)) in
      let f : has_leg td 1 ms ≡ true = there fut (λ e. ground arith) in
      let c : has_leg td 2 ms ≡ true = there call (λ e. ground arith) in
      let p : has_leg td 3 ms ≡ true = there put (λ e. ground arith) in
      (rw (f, c, p) refl, ap length (sym t) ∙ ground arith)
