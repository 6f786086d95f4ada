-- ===== src/Split/Turns.antt =====
-- Where `GetMiddleQty` finds that another leg begins, and the quantity that it returns.
use real_time_cr.Prelude.{
  ◌==◌, if◌then◌else◌, Bool-cases, length, length-append, ℕ, ◌+◌, ◌%◌, ◌^◌, ◌≤◌, ◌≡◌, refl, sym, ap,
  ◌∙◌, inl, inr, Bool, false, ◌||◌, some, [], ◌∷◌, ◌++◌, arith, subst,
}
use real_time_cr.Contract.{
  OmsScripInfo, TokenDataStore, TradeMsgStore, Leg, fut, call, put, type_of, find, switch, leg_type,
  leg_qty, has_leg,
}
use real_time_cr.Message.{BcastMsg}
use real_time_cr.Split.Middle.{Middle, middle_step, is_third, status_of}
use real_time_cr.Words.{add32}
use mathlib.Core.List.{append_assoc}

abbrev pub one : Bool → ℕ
one b = if b then 1 else 0

abbrev pub qty_at : Leg → Middle → ℕ
qty_at fut s = s.fut_qty
qty_at call s = s.call_qty
qty_at put s = s.put_qty

abbrev pub status_at : Leg → Middle → Bool
status_at fut s = s.fut_status
status_at call s = s.call_status
status_at put s = s.put_status

module _ (td : TokenDataStore) where
  -- How many of the three legs the trades have.
  abbrev pub legs_in : TradeMsgStore → ℕ
  legs_in ms = one (has_leg td 1 ms) + one (has_leg td 2 ms) + one (has_leg td 3 ms)

  -- The leg of the last trade that belongs to one.
  abbrev pub last_leg : ℕ → TradeMsgStore → ℕ
  last_leg old [] = old
  last_leg old (m ∷ ms) = last_leg (switch (leg_type td m) 1 2 3 old) ms

  has_leg-append :
      (k : ℕ) (ms : TradeMsgStore) (m : BcastMsg)
      → has_leg td k (ms ++ (m ∷ [])) ≡ (leg_type td m == k || has_leg td k ms)
  has_leg-append k [] m = refl
  has_leg-append k (x ∷ ms) m = ground (arith, has_leg-append k ms m)

  leg_qty-append :
      (k : ℕ) (ms : TradeMsgStore) (m : BcastMsg)
      → leg_qty td k (ms ++ (m ∷ []))
        ≡ leg_qty td k ms + (if leg_type td m == k then m.trade_qty else 0)
  leg_qty-append k [] m = omega arith
  leg_qty-append k (x ∷ ms) m = omega (arith, leg_qty-append k ms m)

  last_leg-append :
      (old : ℕ) (ms : TradeMsgStore) (m : BcastMsg)
      → last_leg old (ms ++ (m ∷ [])) ≡ switch (leg_type td m) 1 2 3 (last_leg old ms)
  last_leg-append old [] m = refl
  last_leg-append old (x ∷ ms) m = last_leg-append (switch (leg_type td x) 1 2 3 old) ms m

  -- The trade behind the first `i` brings the second leg.
  pub record Turn (i : ℕ) (seen : TradeMsgStore) : Type 0 where
    pub before : TradeMsgStore
    pub first : BcastMsg
    pub behind : TradeMsgStore
    pub parts : seen ≡ before ++ (first ∷ behind)
    pub at : length before ≡ i
    pub one_leg : legs_in before ≡ 1
    pub two_legs : legs_in (before ++ (first ∷ [])) ≡ 2

  -- The variables of the loop behind the trades `seen`.
  pub record Tracks (seen : TradeMsgStore) (s : Middle) : Type 0 where
    pub index_eq : s.index ≡ length seen
    pub qty : (g : Leg) → qty_at g s ≡ leg_qty td (type_of g) seen % 2 ^ 32
    pub status : (g : Leg) → status_at g s ≡ has_leg td (type_of g) seen
    pub count_eq : s.count ≡ legs_in seen
    pub count_le : s.count ≤ 2
    pub last :
        1 ≤ s.count → (g : Leg) × (last_leg 0 seen ≡ type_of g) × (s.last_update_qty ≡ qty_at g s)
    pub turn : 2 ≤ s.count → Turn s.start_index seen

  middle_step-qty :
      (g : Leg) (info : OmsScripInfo) (m : BcastMsg) (s : Middle)
      → qty_at g (middle_step info m s) ≡ (
          if info.custom_instrument_type == type_of g
          then add32 (qty_at g s) m.trade_qty
          else qty_at g s)
  middle_step-qty fut info m s = ground arith
  middle_step-qty call info m s = ground arith
  middle_step-qty put info m s = ground arith

  middle_step-status :
      (g : Leg) (info : OmsScripInfo) (m : BcastMsg) (s : Middle)
      → status_at g (middle_step info m s)
        ≡ (info.custom_instrument_type == type_of g || status_at g s)
  middle_step-status fut info m s = ground arith
  middle_step-status call info m s = ground arith
  middle_step-status put info m s = ground arith

  known_type :
      (m : BcastMsg) (info : OmsScripInfo)
      → find td m.token ≡ some info
      → leg_type td m ≡ info.custom_instrument_type
  known_type m info e = ground (arith, e)

  grow : (i : ℕ) (seen : TradeMsgStore) (m : BcastMsg) → Turn i seen → Turn i (seen ++ (m ∷ []))
  grow i seen m t = record {
    before = t.before;
    first = t.first;
    behind = t.behind ++ (m ∷ []);
    parts = ap (λ l. l ++ (m ∷ [])) t.parts ∙ append_assoc t.before (t.first ∷ t.behind) (m ∷ []);
    at = t.at;
    one_leg = t.one_leg;
    two_legs = t.two_legs;
  }

  pub middle_step-count :
      (info : OmsScripInfo) (m : BcastMsg) (seen : TradeMsgStore) (s : Middle)
      → Tracks seen s
      → find td m.token ≡ some info
      → (middle_step info m s).count ≡ legs_in (seen ++ (m ∷ []))
  middle_step-count info m seen s t e =
      let k = known_type m info e in
      let f = t.status fut in
      let c = t.status call in
      let p = t.status put in
      let n = t.count_eq in
      ground (arith, has_leg-append 1 seen m, has_leg-append 2 seen m, has_leg-append 3 seen m)

  qty_at-index : (g : Leg) (n : ℕ) (s : Middle) → qty_at g (record s { index = n }) ≡ qty_at g s
  qty_at-index fut n s = refl
  qty_at-index call n s = refl
  qty_at-index put n s = refl

  middle_step-last :
      (info : OmsScripInfo) (m : BcastMsg) (seen : TradeMsgStore) (s : Middle)
      → Tracks seen s
      → find td m.token ≡ some info
      → 1 ≤ (middle_step info m s).count
      → (g : Leg) × (last_leg 0 (seen ++ (m ∷ [])) ≡ type_of g)
        × ((middle_step info m s).last_update_qty ≡ qty_at g (middle_step info m s))
  middle_step-last info m seen s t e h =
      let k = known_type m info e in
      let snoc = last_leg-append 0 seen m in
      elim (Bool-cases (info.custom_instrument_type == 1)) [
        | inl is_fut ↦ (fut, ground (arith, snoc), ground arith)
        | inr no_fut ↦ elim (Bool-cases (info.custom_instrument_type == 2)) [
          | inl is_call ↦ (call, ground (arith, snoc), ground arith)
          | inr no_call ↦ elim (Bool-cases (info.custom_instrument_type == 3)) [
            | inl is_put ↦ (put, ground (arith, snoc), ground arith)
            | inr no_put ↦
                let same : middle_step info m s ≡ record s { index = s.index + 1 } =
                  rw (no_fut, no_call, no_put) refl in
                let some_leg : 1 ≤ s.count = subst (λ (x : Middle). 1 ≤ x.count) same h in
                let (g, l, q) = t.last some_leg in
                let other : switch (leg_type td m) 1 2 3 (last_leg 0 seen) ≡ last_leg 0 seen =
                  rw (k, no_fut, no_call, no_put) refl in
                let still : (middle_step info m s).last_update_qty ≡ s.last_update_qty =
                  ap (λ (x : Middle). x.last_update_qty) same in
                (
                  g,
                  snoc ∙ other ∙ l,
                  still ∙ q ∙ sym (ap (qty_at g) same ∙ qty_at-index g (s.index + 1) s),
                )
          ]
        ]
      ]

  middle_step-turn :
      (info : OmsScripInfo) (m : BcastMsg) (seen : TradeMsgStore) (s : Middle)
      → Tracks seen s
      → find td m.token ≡ some info
      → 2 ≤ (middle_step info m s).count
      → Turn (middle_step info m s).start_index (seen ++ (m ∷ []))
  middle_step-turn info m seen s t e h =
      let counted = middle_step-count info m seen s t e in
      let n = t.count_eq in
      elim (Bool-cases (s.count == 1)) [
        | inl first ↦
            let start : length seen ≡ (middle_step info m s).start_index =
              let i = t.index_eq in ground arith in
            let two : (middle_step info m s).count ≡ 2 = ground arith in
            record {
              before = seen;
              first = m;
              behind = [];
              parts = refl;
              at = start;
              one_leg = ground arith;
              two_legs = sym counted ∙ two;
            }
        | inr later ↦
            let start : s.start_index ≡ (middle_step info m s).start_index = ground arith in
            let two : 2 ≤ s.count = ground arith in
            subst (λ i. Turn i (seen ++ (m ∷ []))) start (grow s.start_index seen m (t.turn two))
      ]

  pub middle_step-Tracks :
      (info : OmsScripInfo) (m : BcastMsg) (seen : TradeMsgStore) (s : Middle)
      → Tracks seen s
      → find td m.token ≡ some info
      → is_third (status_of info s) s ≡ false
      → Tracks (seen ++ (m ∷ [])) (middle_step info m s)
  middle_step-Tracks info m seen s t e more =
      let k = known_type m info e in
      record {
        index_eq = ground (arith, t.index_eq, length-append seen (m ∷ []));
        qty = λ g.
            let now = middle_step-qty g info m s in
            let old = t.qty g in ground (arith, leg_qty-append (type_of g) seen m);
        status = λ g.
            let now = middle_step-status g info m s in
            let old = t.status g in ground (arith, has_leg-append (type_of g) seen m);
        count_eq = middle_step-count info m seen s t e;
        count_le = let le = t.count_le in ground arith;
        last = middle_step-last info m seen s t e;
        turn = middle_step-turn info m seen s t e;
      }
