-- ===== src/Split/Sums.antt =====
-- What `GetExtraDetails` counts.
use real_time_cr.Prelude.{
  ◌==◌, if◌then◌else◌, end_iterator, ok, deref, bind-eq-ok, ℕ, ◌+◌, ◌%◌, ◌^◌, ◌<◌, ◌≡◌, refl, ap,
  ◌∙◌, Bool, ◌||◌, Option, none, some, [], ◌∷◌, arith,
}
use real_time_cr.Contract.{
  Leg, TokenDataStore, OmsScripInfo, fut, TradeMsgStore, leg_qty, call, type_of, put, has_leg,
  tokens_of, find,
}
use real_time_cr.Split.Details.{
  get_extra_details, ExtraDetails, add_details, see, reset_extra_details,
}
use real_time_cr.Message.{BcastMsg}
use real_time_cr.Words.{add32}

abbrev pub qty_of : Leg → ExtraDetails → ℕ
qty_of fut d = d.fut_qty
qty_of call d = d.call_qty
qty_of put d = d.put_qty

abbrev pub token_of : Leg → ExtraDetails → Bool
token_of fut d = d.fut_token
token_of call d = d.call_token
token_of put d = d.put_token

module _ (td : TokenDataStore) where
  -- One packet of a known contract.
  pub add_details-qty :
      (g : Leg) (info : OmsScripInfo) (m : BcastMsg) (d : ExtraDetails)
      → qty_of g (add_details info m d) ≡ (
          if info.custom_instrument_type == type_of g
          then add32 (qty_of g d) m.trade_qty
          else qty_of g d)
  add_details-qty fut info m d = ground arith
  add_details-qty call info m d = ground arith
  add_details-qty put info m d = ground arith

  add_details-flag :
      (g : Leg) (info : OmsScripInfo) (m : BcastMsg) (d : ExtraDetails)
      → token_of g (add_details info m d)
        ≡ (info.custom_instrument_type == type_of g || token_of g d)
  add_details-flag fut info m d = ground arith
  add_details-flag call info m d = ground arith
  add_details-flag put info m d = ground arith

  see-qty : (g : Leg) (m : BcastMsg) (d : ExtraDetails) → qty_of g (see m d) ≡ qty_of g d
  see-qty fut m d = refl
  see-qty call m d = refl
  see-qty put m d = refl

  see-flag : (g : Leg) (m : BcastMsg) (d : ExtraDetails) → token_of g (see m d) ≡ token_of g d
  see-flag fut m d = refl
  see-flag call m d = refl
  see-flag put m d = refl

  pub add_details-tokens :
      (info : OmsScripInfo) (m : BcastMsg) (d : ExtraDetails)
      → (add_details info m d).token_store ≡ d.token_store
  add_details-tokens info m d = ground arith

  -- A round, if the token is known.
  get_extra_details-cons :
      (m : BcastMsg) (ms : TradeMsgStore) (d d' : ExtraDetails)
      → get_extra_details td (m ∷ ms) d ≡ ok d'
      → (info : OmsScripInfo) × (find td m.token ≡ some info)
        × (get_extra_details td ms (add_details info m (see m d)) ≡ ok d')
  unfolding get_extra_details
  get_extra_details-cons m ms d d' h =
      let (info, e, k) =
        bind-eq-ok (deref (find td m.token) end_iterator)
          (λ info. get_extra_details td ms (add_details info m (see m d))) h in
      (info, known (find td m.token) e, k)
    where
      known :
          (o : Option OmsScripInfo) {i : OmsScripInfo} → deref o end_iterator ≡ ok i → o ≡ some i
      known none e = absurd cc
      known (some j) e = ground arith

  get_extra_details-qty :
      (g : Leg) (ms : TradeMsgStore) (d d' : ExtraDetails)
      → get_extra_details td ms d ≡ ok d'
      → qty_of g d < 2 ^ 32
      → qty_of g d' ≡ (qty_of g d + leg_qty td (type_of g) ms) % 2 ^ 32
  unfolding get_extra_details
  get_extra_details-qty g [] d d' h small = let e : d ≡ d' = ground arith in rw (← e) (omega arith)
  get_extra_details-qty g (m ∷ ms) d d' h small =
      let (info, e, k) = get_extra_details-cons m ms d d' h in
      let now = add_details-qty g info m (see m d) in
      ground (
        arith,
        e,
        see-qty g m d,
        now,
        get_extra_details-qty g ms (add_details info m (see m d)) d' k,
      )

  get_extra_details-flag :
      (g : Leg) (ms : TradeMsgStore) (d d' : ExtraDetails)
      → get_extra_details td ms d ≡ ok d'
      → token_of g d' ≡ (has_leg td (type_of g) ms || token_of g d)
  unfolding get_extra_details
  get_extra_details-flag g [] d d' h = let e : d ≡ d' = ground arith in rw (← e) refl
  get_extra_details-flag g (m ∷ ms) d d' h =
      let (info, e, k) = get_extra_details-cons m ms d d' h in
      let now = add_details-flag g info m (see m d) in
      ground (
        arith,
        e,
        see-flag g m d,
        now,
        get_extra_details-flag g ms (add_details info m (see m d)) d' k,
      )

  get_extra_details-tokens :
      (ms : TradeMsgStore) (d d' : ExtraDetails)
      → get_extra_details td ms d ≡ ok d'
      → d'.token_store ≡ tokens_of d.token_store ms
  unfolding get_extra_details
  get_extra_details-tokens [] d d' h = let e : d ≡ d' = ground arith in rw (← e) refl
  get_extra_details-tokens (m ∷ ms) d d' h =
      let (info, e, k) = get_extra_details-cons m ms d d' h in
      get_extra_details-tokens ms (add_details info m (see m d)) d' k
      ∙ ap (λ t. tokens_of t ms) (add_details-tokens info m (see m d))

  -- The quantities and the tokens are those of the packets.
  unfoldable pub IsSummed : TradeMsgStore → ExtraDetails → Type 0
  IsSummed ms d =
      ((g : Leg) → qty_of g d ≡ leg_qty td (type_of g) ms % 2 ^ 32)
      × (d.token_store ≡ tokens_of [] ms)

  -- A call of `ResetExtraDetails` and of `GetExtraDetails` that returns leaves the quantity of each
  -- leg, as `int32_t`, whether the leg is there, and the set of tokens.
  pub get_extra_details-reset :
      (ms : TradeMsgStore) (d : ExtraDetails)
      → get_extra_details td ms reset_extra_details ≡ ok d
      → IsSummed ms d × ((g : Leg) → token_of g d ≡ has_leg td (type_of g) ms)
  unfolding IsSummed
  get_extra_details-reset ms d h =
      ((quantities, get_extra_details-tokens ms reset_extra_details d h), flags)
    where
      quantities : (g : Leg) → qty_of g d ≡ leg_qty td (type_of g) ms % 2 ^ 32
      quantities fut =
          omega (arith, get_extra_details-qty fut ms reset_extra_details d h (omega arith))
      quantities call =
          omega (arith, get_extra_details-qty call ms reset_extra_details d h (omega arith))
      quantities put =
          omega (arith, get_extra_details-qty put ms reset_extra_details d h (omega arith))

      flags : (g : Leg) → token_of g d ≡ has_leg td (type_of g) ms
      flags fut = ground (arith, get_extra_details-flag fut ms reset_extra_details d h)
      flags call = ground (arith, get_extra_details-flag call ms reset_extra_details d h)
      flags put = ground (arith, get_extra_details-flag put ms reset_extra_details d h)
