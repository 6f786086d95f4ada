-- ===== src/Split/Kept.antt =====
-- Facts on the groups that the steps of `SplitTrade` leave: no packet is made up, and the leg traded
-- last is still there.
use real_time_cr.Prelude.{
  ◌==◌, Bool-cases, All, ok, ℕ, ◌≡◌, refl, ◌≢◌, ◌⊎◌, inl, inr, true, ◌||◌, [], ◌∷◌, ◌++◌, arith,
}
use real_time_cr.Contract.{TokenDataStore, TradeMsgStore, IsKnown, has_leg, leg_type}
use real_time_cr.Message.{BcastMsg}
use real_time_cr.Split.Details.{get_extra_details, ExtraDetails, add_details, see}
use real_time_cr.Split.Erased.{drop_leg, keep_strike, strike_price_of}

module _ (td : TokenDataStore) where
  pub keep_strike-All :
      (P : BcastMsg → Type 0) (strike : ℕ) (ms : TradeMsgStore)
      → All P ms
      → All P (keep_strike td strike ms)
  keep_strike-All P strike [] k = tt
  keep_strike-All P strike (m ∷ ms) (k, ks) = elim (Bool-cases (leg_type td m == 1)) [
    | inl f ↦ rw f (k, ks)
    | inr o ↦ elim (Bool-cases (strike == strike_price_of td m)) [
      | inl e ↦ rw (o, e) (k, keep_strike-All P strike ms ks)
      | inr e ↦ rw (o, e) (keep_strike-All P strike ms ks)
    ]
  ]

  pub drop_leg-All :
      (P : BcastMsg → Type 0) (n : ℕ) (ms : TradeMsgStore) → All P ms → All P (drop_leg td n ms)
  drop_leg-All P n [] k = tt
  drop_leg-All P n (m ∷ ms) (k, ks) = elim (Bool-cases (leg_type td m == n)) [
    | inl e ↦ rw e (drop_leg-All P n ms ks)
    | inr e ↦ rw e (k, ks)
  ]

  -- A group with another leg does not lose all its packets, nor the packet behind it.
  pub drop_leg-append :
      (n l : ℕ) (ms : TradeMsgStore) (m : BcastMsg)
      → has_leg td l ms ≡ true
      → l ≢ n
      → (x : BcastMsg) × (xs : TradeMsgStore) × (drop_leg td n (ms ++ (m ∷ []))
          ≡ x ∷ (xs ++ (m ∷ [])))
  drop_leg-append n l [] m h ne = cc
  drop_leg-append n l (y ∷ ys) m h ne = elim (Bool-cases (leg_type td y == n)) [
    | inl e ↦ rw e (drop_leg-append n l ys m (ground arith) ne)
    | inr e ↦ rw e (y, ys, refl)
  ]

  pub has_leg-append :
      (l : ℕ) (ms ns : TradeMsgStore)
      → has_leg td l (ms ++ ns) ≡ (has_leg td l ms || has_leg td l ns)
  has_leg-append l [] ns = refl
  has_leg-append l (m ∷ ms) ns = ground (arith, has_leg-append l ms ns)

  -- `GetExtraDetails` on known tokens: it ends, and the last instrument type is that of some packet.
  pub get_extra_details-ok :
      (ms : TradeMsgStore) (d : ExtraDetails)
      → All (IsKnown td) ms
      → (d' : ExtraDetails) × (get_extra_details td ms d ≡ ok d')
        × ((d'.last_custom_instrument_type ≡ d.last_custom_instrument_type)
            ⊎ (has_leg td d'.last_custom_instrument_type ms ≡ true))
  unfolding get_extra_details
  get_extra_details-ok [] d k = (d, refl, inl refl)
  get_extra_details-ok (m ∷ ms) d ((info, e), k) =
      let (d', run, last) = get_extra_details-ok ms (add_details info m (see m d)) k in
      (d', ground (arith, e), ground (arith, e))
