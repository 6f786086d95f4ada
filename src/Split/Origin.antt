-- ===== src/Split/Origin.antt =====
-- Where the groups of `SplitTrade` come from.
use real_time_cr.Prelude.{
  if◌then◌else◌, Bool-cases, length, All, All-append, ok, ◌>>=◌, bind-eq-ok, ℕ, ◌%◌, ◌^◌, ◌≡◌, refl,
  sym, ap, ◌∙◌, inl, inr, Bool, true, false, ◌||◌, some, [], ◌∷◌, ◌++◌, arith,
}
use real_time_cr.Contract.{
  TokenDataStore, TradeMsgStore, leg_qty, tokens_of, fut, call, put, OmsScripInfo, find, insert,
  tokens_of-append,
}
use real_time_cr.Message.{BcastMsg}
use real_time_cr.Split.Sums.{IsSummed}
use real_time_cr.Split.{
  SplitState, ExtraDetails, append, is_level, push, rescan, see, case_fut, add_fut, comes_back,
  sub32, case_put, case_call, add_put, add_call,
}
use real_time_cr.Split.Around.{Around}
use real_time_cr.Split.Details.{ExtraDetails, see, add_details, add_fut, add_put, add_call}
use real_time_cr.Split.Level.{
  IsOneShort, append-IsOneShort, rescan-IsSummed, add_details-IsSummed, without_fut, without_put,
  without_call,
}
use real_time_cr.Words.{sub32}

module _ (td : TokenDataStore) where
  -- The legs have equal quantities, as `int32_t`.
  pub record IsEven (ms : TradeMsgStore) : Type 0 where
    pub fut_call : leg_qty td 1 ms % 2 ^ 32 ≡ leg_qty td 2 ms % 2 ^ 32
    pub call_put : leg_qty td 2 ms % 2 ^ 32 ≡ leg_qty td 3 ms % 2 ^ 32

  -- A group of three tokens with legs of equal quantities; one that has these but for its last packet;
  -- or one picked around the second leg of trades of three tokens.
  pub data Origin : TradeMsgStore → Type 0 where
    level : {g : TradeMsgStore} → IsEven g → length (tokens_of [] g) ≡ 3 → Origin g
    one_more :
        (ms : TradeMsgStore) (m : BcastMsg)
        → IsEven ms
        → length (tokens_of [] (ms ++ (m ∷ []))) ≡ 3
        → Origin (ms ++ (m ∷ []))
    around :
        {g : TradeMsgStore} (ms : TradeMsgStore)
        → Around td ms g
        → length (tokens_of [] ms) ≡ 3
        → Origin g

  -- Between rounds: the details are those of the open group, and the groups cut off have an origin.
  pub record IsTallied (s : SplitState) : Type 0 where
    pub summed : IsSummed td s.trade_msg_store s.details
    pub origins : All Origin s.trade_vector_store

  -- When the trade is in the group and not yet in the details.
  pub record IsPending (m : BcastMsg) (s : SplitState) : Type 0 where
    pub short : IsOneShort td m s.trade_msg_store s.details
    pub origins : All Origin s.trade_vector_store

  pub IsEven-of :
      (ms : TradeMsgStore) (d : ExtraDetails) → IsSummed td ms d → is_level d ≡ true → IsEven ms
  unfolding IsSummed
  IsEven-of ms d (q, t) h = record {
    fut_call = ground (arith, q fut, q call);
    call_put = ground (arith, q call, q put);
  }

  even_but_last :
      (m : BcastMsg) (ms : TradeMsgStore) (d : ExtraDetails)
      → IsSummed td ms d
      → is_level (see m d) ≡ true
      → Origin (ms ++ (m ∷ []))
  unfolding IsSummed
  even_but_last m ms d (q, t) h =
      let three : length (insert m.token d.token_store) ≡ 3 = ground arith in
      one_more ms m
        (record {
          fut_call = ground (arith, q fut, q call);
          call_put = ground (arith, q call, q put);
        })
        (ap length (tokens_of-append [] ms m ∙ ap (insert m.token) (sym t)) ∙ three)

  pub append-IsPending : (m : BcastMsg) (s : SplitState) → IsTallied s → IsPending m (append m s)
  append-IsPending m s c = record {
    short = append-IsOneShort td m s.trade_msg_store s.details c.summed;
    origins = c.origins;
  }

  -- The leg comes back: the group is cut off if it is level, and otherwise loses its first packets.
  come_back :
      (again : Bool) (n : ℕ) (undo : SplitState → SplitState) (m : BcastMsg) (s t : SplitState)
      → ((u : SplitState)
          → IsSummed td u.trade_msg_store u.details
          → IsOneShort td m (undo u).trade_msg_store (undo u).details)
      → ((u : SplitState) → (undo u).trade_vector_store ≡ u.trade_vector_store)
      → IsTallied s
      → (if again
          then (if is_level (append m s).details
              then ok (push (append m s) (append m s).trade_msg_store)
              else (rescan td n (append m s) >>= λ u. ok (undo u)))
          else ok (append m s))
        ≡ ok t
      → IsPending m t
  come_back false n undo m s t short same c h =
      let e : append m s ≡ t = ground arith in rw (← e) (append-IsPending m s c)
  come_back true n undo m s t short same c h = elim (Bool-cases (is_level (append m s).details)) [
    | inl even ↦
        let e : push (append m s) (append m s).trade_msg_store ≡ t = ground arith in
        rw (← e) (record {
          short = (append-IsPending m s c).short;
          origins =
              All-append Origin s.trade_vector_store _ c.origins
                (even_but_last m s.trade_msg_store s.details c.summed even, tt);
        })
    | inr odd ↦
        let (u, e, k) = bind-eq-ok (rescan td n (append m s)) (λ u. ok (undo u)) (rw odd at h) in
        let (summed, kept) = rescan-IsSummed td n (append m s) u e in
        let e1 : undo u ≡ t = ground arith in
        rw (← e1) (record { short = short u summed; origins = rw (same u, kept) c.origins })
  ]

  -- The trade counted, once its contract is known.
  pub add_details-IsTallied :
      (info : OmsScripInfo) (m : BcastMsg) (s : SplitState)
      → find td m.token ≡ some info
      → IsPending m s
      → IsTallied (record s { details = add_details info m s.details })
  add_details-IsTallied info m s known p = record {
    summed = add_details-IsSummed td info m s.trade_msg_store s.details known p.short;
    origins = p.origins;
  }

  pub case_fut-IsTallied :
      (info : OmsScripInfo) (m : BcastMsg) (s t : SplitState)
      → find td m.token ≡ some info
      → info.custom_instrument_type ≡ 1
      → IsTallied s
      → case_fut td info m (append m s) ≡ ok t
      → IsTallied t
  unfolding case_fut
  case_fut-IsTallied info m s t known type c h =
      let (u, e, k) =
        bind-eq-ok {A = SplitState} _ (λ u. ok (record u { details = add_fut info m u.details }))
          h in
      let pending =
        come_back
          (comes_back info s.details.fut_token (s.details.put_token || s.details.call_token)
            s.details)
          info.custom_instrument_type
          (λ x. record x {
            details = record (x.details) { fut_qty = sub32 x.details.fut_qty m.trade_qty };
          })
          m s u
          (λ x summed. without_fut td m x.trade_msg_store x.details (ground (arith, known)) summed)
          (λ x. refl) c e in
      let same : record u { details = add_details info m u.details } ≡ t = ground arith in
      rw (← same) (add_details-IsTallied info m u known pending)

  pub case_call-IsTallied :
      (info : OmsScripInfo) (m : BcastMsg) (s t : SplitState)
      → find td m.token ≡ some info
      → info.custom_instrument_type ≡ 2
      → IsTallied s
      → case_call td info m (append m s) ≡ ok t
      → IsTallied t
  unfolding case_call
  case_call-IsTallied info m s t known type c h =
      let (u, e, k) =
        bind-eq-ok {A = SplitState} _ (λ u. ok (record u { details = add_call info m u.details }))
          h in
      let pending =
        come_back
          (comes_back info s.details.call_token (s.details.put_token || s.details.fut_token)
            s.details)
          info.custom_instrument_type
          (λ x. record x {
            details = record (x.details) { call_qty = sub32 x.details.call_qty m.trade_qty };
          })
          m s u
          (λ x summed. without_call td m x.trade_msg_store x.details (ground (arith, known)) summed)
          (λ x. refl) c e in
      let same : record u { details = add_details info m u.details } ≡ t = ground arith in
      rw (← same) (add_details-IsTallied info m u known pending)

  pub case_put-IsTallied :
      (info : OmsScripInfo) (m : BcastMsg) (s t : SplitState)
      → find td m.token ≡ some info
      → info.custom_instrument_type ≡ 3
      → IsTallied s
      → case_put td info m (append m s) ≡ ok t
      → IsTallied t
  unfolding case_put
  case_put-IsTallied info m s t known type c h =
      let (u, e, k) =
        bind-eq-ok {A = SplitState} _ (λ u. ok (record u { details = add_put info m u.details }))
          h in
      let pending =
        come_back
          (comes_back info s.details.put_token (s.details.call_token || s.details.fut_token)
            s.details)
          info.custom_instrument_type
          (λ x. record x {
            details = record (x.details) { put_qty = sub32 x.details.put_qty m.trade_qty };
          })
          m s u
          (λ x summed. without_put td m x.trade_msg_store x.details (ground (arith, known)) summed)
          (λ x. refl) c e in
      let same : record u { details = add_details info m u.details } ≡ t = ground arith in
      rw (← same) (add_details-IsTallied info m u known pending)
