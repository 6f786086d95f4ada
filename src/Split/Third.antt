-- ===== src/Split/Third.antt =====
-- Where `GetMiddleQty` stops.
use real_time_cr.Prelude.{
  Bool-cases, end_iterator, bind-eq-ok, ok, deref, ◌≡◌, refl, sym, ◌∙◌, ◌⊎◌, inl, inr, true, false,
  Option, none, some, [], ◌∷◌, ◌++◌, arith, subst,
}
use real_time_cr.Contract.{OmsScripInfo, TokenDataStore, TradeMsgStore, Leg, fut, call, put, find}
use real_time_cr.Message.{BcastMsg}
use real_time_cr.Split.Middle.{
  Middle, no_middle, middle_loop, middle_step, get_middle_qty, is_third, status_of, stop,
}
use mathlib.Core.List.{append-nil, append_assoc}
use real_time_cr.Split.Turns.{
  legs_in, Tracks, middle_step-Tracks, middle_step-count, qty_at, status_at,
}

module _ (td : TokenDataStore) where
  no_middle-Tracks : Tracks td [] no_middle
  no_middle-Tracks = record {
    index_eq = refl;
    qty = no_qty;
    status = no_status;
    count_eq = refl;
    count_le = ground arith;
    last = λ h. absurd (ground arith);
    turn = λ h. absurd (ground arith);
  }
    where
      no_qty : (g : Leg) → qty_at g no_middle ≡ 0
      no_qty fut = refl
      no_qty call = refl
      no_qty put = refl

      no_status : (g : Leg) → status_at g no_middle ≡ false
      no_status fut = refl
      no_status call = refl
      no_status put = refl

  -- Where the third leg begins: the trades in front of it, and the loop's variables there.
  pub record Third (ms : TradeMsgStore) (t : Middle) : Type 0 where
    pub seen : TradeMsgStore
    pub next : BcastMsg
    pub behind : TradeMsgStore
    pub at : Middle
    pub parts : ms ≡ seen ++ (next ∷ behind)
    pub tracks : Tracks td seen at
    pub stopped : t ≡ stop at
    pub two_legs : legs_in td seen ≡ 2
    pub three_legs : legs_in td (seen ++ (next ∷ [])) ≡ 3

  middle_loop-Third :
      (ms seen : TradeMsgStore) (s t : Middle)
      → Tracks td seen s
      → middle_loop td ms s ≡ ok t
      → Third (seen ++ ms) t ⊎ Tracks td (seen ++ ms) t
  unfolding middle_loop
  middle_loop-Third [] seen s t r h =
      let e : s ≡ t = ground arith in inr (rw (append-nil seen) (subst (Tracks td seen) e r))
  middle_loop-Third (m ∷ ms) seen s t r h =
      let (info, d, _) = bind-eq-ok (deref (find td m.token) end_iterator) _ h in
      let e = known (find td m.token) d in
      elim (Bool-cases (is_third (status_of info s) s)) [
        | inl third ↦
            let stopped : stop s ≡ t = ground (arith, e) in
            inl (record {
              seen = seen;
              next = m;
              behind = ms;
              at = s;
              parts = refl;
              tracks = r;
              stopped = sym stopped;
              two_legs = let n = r.count_eq in ground arith;
              three_legs = three info m seen s r e third;
            })
        | inr more ↦
            let h1 : middle_loop td ms (middle_step info m s) ≡ ok t = ground (arith, e) in
            let next = middle_step-Tracks td info m seen s r e more in
            subst (λ l. Third l t ⊎ Tracks td l t) (append_assoc seen (m ∷ []) ms)
              (middle_loop-Third ms (seen ++ (m ∷ [])) (middle_step info m s) t next h1)
      ]
    where
      known :
          (o : Option OmsScripInfo) {i : OmsScripInfo} → deref o end_iterator ≡ ok i → o ≡ some i
      known none e = cc
      known (some j) e = ground arith

      three :
          (info : OmsScripInfo) (m : BcastMsg) (seen : TradeMsgStore) (s : Middle)
          → Tracks td seen s
          → find td m.token ≡ some info
          → is_third (status_of info s) s ≡ true
          → legs_in td (seen ++ (m ∷ [])) ≡ 3
      three info m seen s r e third =
          let c = middle_step-count td info m seen s r e in sym c ∙ ground arith

  -- With all three legs there, `GetMiddleQty` stops where the third one begins.
  pub get_middle_qty-Third :
      (ms : TradeMsgStore) (t : Middle)
      → legs_in td ms ≡ 3
      → get_middle_qty td ms ≡ ok t
      → Third ms t
  unfolding get_middle_qty
  get_middle_qty-Third ms t all h = elim (middle_loop-Third ms [] no_middle t no_middle-Tracks h) [
    | inl third ↦ third
    | inr ends ↦ let n = ends.count_eq in let le = ends.count_le in absurd (omega arith)
  ]
