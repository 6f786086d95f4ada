-- ===== src/Split/Erased.antt =====
-- What the three erasing functions leave of a group whose tokens are all known.
use real_time_cr.Prelude.{
  leb, ◌==◌, if◌then◌else◌, Bool-cases, length, keep, All, end_iterator, Exec, ok, fault, ◌>>=◌, ℕ,
  zero, suc, ◌≤◌, ◌≡◌, refl, sym, ap, ◌∙◌, inl, inr, Option, none, some, [], ◌∷◌, arith,
}
use real_time_cr.Contract.{TokenDataStore, TradeMsgStore, leg_type, find, IsKnown, OmsScripInfo}
use real_time_cr.Message.{BcastMsg}
use real_time_cr.Split.Erase.{
  Pass, erased, passes, reached_end, returned, expiry_pass, behind, strike_pass,
  delete_packet_till_expiry_date, second_level_order_validation, erase_while,
  delete_packet_till_strike_price,
}

-- The contract fields that decide, of a trade; 0 if its token is unknown.
abbrev pub expiry_of : TokenDataStore → BcastMsg → ℕ
expiry_of td m = elim (find td m.token) [ none ↦ 0 | some info ↦ info.expiry_date ]

abbrev pub strike_price_of : TokenDataStore → BcastMsg → ℕ
strike_price_of td m = elim (find td m.token) [ none ↦ 0 | some info ↦ info.strike_price ]

-- The options of another strike price are gone up to the first future; from there nothing is.
abbrev pub keep_strike : TokenDataStore → ℕ → TradeMsgStore → TradeMsgStore
keep_strike td strike [] = []
keep_strike td strike (m ∷ ms) =
    if leg_type td m == 1
    then m ∷ ms
    else if strike == strike_price_of td m
    then m ∷ keep_strike td strike ms
    else keep_strike td strike ms

-- The leading trades of one leg are gone.
abbrev pub drop_leg : TokenDataStore → ℕ → TradeMsgStore → TradeMsgStore
drop_leg td n [] = []
drop_leg td n (m ∷ ms) = if leg_type td m == n then drop_leg td n ms else m ∷ ms

-- What a pass may do to a list that `result` is to leave.
abbrev Leads : (TradeMsgStore → TradeMsgStore) → TokenDataStore → TradeMsgStore → Exec Pass → Type 0
Leads result td ms (ok (erased ms')) =
    (result ms' ≡ result ms) × (length ms ≡ suc (length ms')) × All (IsKnown td) ms'
Leads result td ms (ok reached_end) = result ms ≡ ms
Leads result td ms (ok returned) = result ms ≡ ms
Leads result td ms (fault e) = ⊥

module _ (td : TokenDataStore) (result : TradeMsgStore → TradeMsgStore)
    (pass : TradeMsgStore → Exec Pass) where
  idle_passes : (n : ℕ) (ms : TradeMsgStore) → pass ms ≡ ok reached_end → passes n pass ms ≡ ok ms
  unfolding passes
  idle_passes zero ms p = refl
  idle_passes (suc n) ms p = ground (arith, idle_passes n ms p)

  one_pass :
      (n : ℕ) (ms : TradeMsgStore) (p : Exec Pass)
      → ((ms' : TradeMsgStore)
          → length ms' ≤ n
          → All (IsKnown td) ms'
          → passes n pass ms' ≡ ok (result ms'))
      → length ms ≤ suc n
      → pass ms ≡ p
      → Leads result td ms p
      → passes (suc n) pass ms ≡ ok (result ms)
  unfolding passes
  one_pass n ms (ok (erased ms')) ih h p (same, shorter, known) =
      ground (arith, ih ms' (omega arith) known)
  one_pass n ms (ok reached_end) ih h p same = ground (arith, idle_passes n ms p)
  one_pass n ms (ok returned) ih h p same = ground arith
  one_pass n ms (fault f) ih h p bad = absurd bad

  -- As many passes as there are packets are enough.
  passes-result :
      ((ms : TradeMsgStore) → All (IsKnown td) ms → Leads result td ms (pass ms))
      → result [] ≡ []
      → (n : ℕ) (ms : TradeMsgStore) → length ms ≤ n
      → All (IsKnown td) ms
      → passes n pass ms ≡ ok (result ms)
  unfolding passes
  passes-result leads e zero [] h k = rw e
  passes-result leads e zero (m ∷ ms) h k = absurd (omega arith)
  passes-result leads e (suc n) ms h k =
      one_pass n ms (pass ms) (passes-result leads e n) h refl (leads ms k)

-- A packet that stays in front of the rest of the pass.
behind-Leads :
    (result : TradeMsgStore → TradeMsgStore) (td : TokenDataStore) (m : BcastMsg)
    (ms : TradeMsgStore) (p : Exec Pass)
    → IsKnown td m
    → ((xs : TradeMsgStore) → result (m ∷ xs) ≡ m ∷ result xs)
    → Leads result td ms p
    → Leads result td (m ∷ ms) (p >>= λ q. ok (behind m q))
behind-Leads result td m ms (ok (erased ms')) k e (same, shorter, known) =
    (e ms' ∙ ap (λ xs. m ∷ xs) same ∙ sym (e ms), omega arith, (k, known))
behind-Leads result td m ms (ok reached_end) k e h = e ms ∙ ap (λ xs. m ∷ xs) h
behind-Leads result td m ms (ok returned) k e h = e ms ∙ ap (λ xs. m ∷ xs) h
behind-Leads result td m ms (fault f) k e h = absurd h

module _ (td : TokenDataStore) where
  abbrev pub same_expiry : ℕ → TradeMsgStore → TradeMsgStore
  same_expiry expiry = keep (λ m. expiry == expiry_of td m)

  expiry_pass-cons :
      (expiry : ℕ) (scrip : Option OmsScripInfo) (m : BcastMsg) (ms : TradeMsgStore)
      (info : OmsScripInfo)
      → find td m.token ≡ some info
      → expiry_pass td expiry scrip (m ∷ ms) ≡ (
          if expiry == info.expiry_date
          then (expiry_pass td expiry (some info) ms >>= λ q. ok (behind m q))
          else ok (erased ms))
  unfolding expiry_pass
  expiry_pass-cons expiry scrip m ms info e = ground (arith, e)

  expiry_pass-Leads :
      (expiry : ℕ) (scrip : Option OmsScripInfo) (ms : TradeMsgStore)
      → All (IsKnown td) ms
      → Leads (same_expiry expiry) td ms (expiry_pass td expiry scrip ms)
  expiry_pass-Leads expiry scrip [] k = unfold expiry_pass in refl
  expiry_pass-Leads expiry scrip (m ∷ ms) ((info, e), k) =
      elim (Bool-cases (expiry == info.expiry_date)) [
        | inl same ↦
            rw (expiry_pass-cons expiry scrip m ms info e, same)
              (behind-Leads (same_expiry expiry) td m ms (expiry_pass td expiry (some info) ms)
                (info, e) (λ xs. ground arith) (expiry_pass-Leads expiry (some info) ms k))
        | inr other ↦ rw (expiry_pass-cons expiry scrip m ms info e, other) (ground arith, refl, k)
      ]

  strike_pass-cons :
      (strike : ℕ) (scrip : Option OmsScripInfo) (m : BcastMsg) (ms : TradeMsgStore)
      (info : OmsScripInfo)
      → find td m.token ≡ some info
      → strike_pass td strike scrip (m ∷ ms) ≡ (
          if info.custom_instrument_type == 1
          then ok returned
          else if strike == info.strike_price
          then (strike_pass td strike (some info) ms >>= λ q. ok (behind m q))
          else ok (erased ms))
  unfolding strike_pass
  strike_pass-cons strike scrip m ms info e = ground (arith, e)

  strike_pass-Leads :
      (strike : ℕ) (scrip : Option OmsScripInfo) (ms : TradeMsgStore)
      → All (IsKnown td) ms
      → Leads (keep_strike td strike) td ms (strike_pass td strike scrip ms)
  strike_pass-Leads strike scrip [] k = unfold strike_pass in refl
  strike_pass-Leads strike scrip (m ∷ ms) ((info, e), k) =
      elim (Bool-cases (info.custom_instrument_type == 1)) [
        | inl future ↦ rw (strike_pass-cons strike scrip m ms info e, future) (ground arith)
        | inr option ↦ elim (Bool-cases (strike == info.strike_price)) [
          | inl same ↦
              rw (strike_pass-cons strike scrip m ms info e, option, same)
                (behind-Leads (keep_strike td strike) td m ms (strike_pass td strike (some info) ms)
                  (info, e) (λ xs. ground arith) (strike_pass-Leads strike (some info) ms k))
          | inr other ↦
              rw (strike_pass-cons strike scrip m ms info e, option, other) (ground arith, refl, k)
        ]
      ]

  -- `DeletePacketTillExpiryDate` keeps the packets of the expiry date, in their order, if all tokens
  -- are known.
  pub delete_packet_till_expiry_date-eq :
      (expiry : ℕ) (ms : TradeMsgStore)
      → All (IsKnown td) ms
      → delete_packet_till_expiry_date td expiry ms ≡ ok (same_expiry expiry ms)
  unfolding delete_packet_till_expiry_date
  delete_packet_till_expiry_date-eq expiry ms k =
      passes-result td (same_expiry expiry) (expiry_pass td expiry none)
        (expiry_pass-Leads expiry none) refl (length ms) ms (omega arith) k

  -- `DeletePacketTillStrikePrice` takes the options of another strike price out up to the first
  -- future and leaves everything from there on, if all tokens are known.
  pub delete_packet_till_strike_price-eq :
      (strike : ℕ) (ms : TradeMsgStore)
      → All (IsKnown td) ms
      → delete_packet_till_strike_price td strike ms ≡ ok (keep_strike td strike ms)
  unfolding delete_packet_till_strike_price
  delete_packet_till_strike_price-eq strike ms k =
      passes-result td (keep_strike td strike) (strike_pass td strike none)
        (strike_pass-Leads strike none) refl (length ms) ms (omega arith) k

  erase_while-eq :
      (n : ℕ) (scrip : Option OmsScripInfo) (ms : TradeMsgStore)
      → All (IsKnown td) ms
      → erase_while td n scrip ms
        ≡ elim (drop_leg td n ms) [ [] ↦ fault end_iterator | m ∷ rest ↦ ok (m ∷ rest) ]
  unfolding erase_while
  erase_while-eq n scrip [] k = refl
  erase_while-eq n scrip (m ∷ ms) ((info, e), k) =
      ground (arith, e, erase_while-eq n (some info) ms k)

  -- `SecondLevelOrderValidation` takes the leading packets of the leg off a group of two or more; it
  -- runs over the end of the vector exactly when no other packet is there. All tokens are known.
  pub second_level_order_validation-eq :
      (n : ℕ) (ms : TradeMsgStore)
      → All (IsKnown td) ms
      → second_level_order_validation td n ms ≡ (
          if leb (length ms) 1
          then ok ms
          else elim (drop_leg td n ms) [ [] ↦ fault end_iterator | m ∷ rest ↦ ok (m ∷ rest) ])
  unfolding second_level_order_validation
  second_level_order_validation-eq n [] k = refl
  second_level_order_validation-eq n (m ∷ []) k = refl
  second_level_order_validation-eq n (m ∷ m' ∷ ms) k =
      erase_while-eq n none (m ∷ m' ∷ ms) k ∙ ground arith
