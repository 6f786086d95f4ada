-- ===== src/Validate/Complete.antt =====
-- Trades that `ValidateTradeMsgRecords` accepts.
use real_time_cr.Prelude.{
  ◌==◌, Bool-cases, length, All, ok, ℕ, suc, ◌+◌, ◌≤◌, ◌≡◌, refl, sym, inl, inr, Bool, true, false,
  ◌||◌, none, some, [], ◌∷◌, arith, subst,
}
use real_time_cr.Contract.{
  OmsScripInfo, TokenDataStore, TradeMsgStore, TokenStore, find, insert, tokens_of, has_leg, Leg,
  type_of, fut, call, put,
}
use real_time_cr.Words.{lt32}
use real_time_cr.Validate.{
  Legs, note, settle, see_token, see_tokens, no_legs, validate_trade_msg_records,
}
use real_time_cr.Validate.OnePass.{all_known, validate_trade_msg_records-eq}
use real_time_cr.ConRev.{no_sides, is_con_rev}
use real_time_cr.ConRev.Rounds.{mark_known}
use real_time_cr.ConRev.Complete.{Agrees}

module _ (td : TokenDataStore) where
  abbrev token_type : ℕ → ℕ
  token_type t = elim (find td t) [ none ↦ 0 | some info ↦ info.custom_instrument_type ]

  abbrev has_type : ℕ → TokenStore → Bool
  has_type k [] = false
  has_type k (t ∷ ts) = token_type t == k || has_type k ts

  insert-has_type :
      (k t : ℕ) (us : TokenStore) → has_type k (insert t us) ≡ (token_type t == k || has_type k us)
  unfolding insert
  insert-has_type k t [] = refl
  insert-has_type k t (u ∷ us) = ground (arith, insert-has_type k t us)

  tokens_of-has_type :
      (k : ℕ) (ms : TradeMsgStore) (old : TokenStore)
      → has_type k (tokens_of old ms) ≡ (has_leg td k ms || has_type k old)
  tokens_of-has_type k [] old = refl
  tokens_of-has_type k (m ∷ ms) old =
      ground (arith, tokens_of-has_type k ms (insert m.token old), insert-has_type k m.token old)

  -- Tokens of three types are three at least.
  three_types :
      (ts : TokenStore)
      → has_type 1 ts ≡ true
      → has_type 2 ts ≡ true
      → has_type 3 ts ≡ true
      → 3 ≤ length ts
  three_types [] f c p = cc
  three_types (t ∷ []) f c p = ground arith
  three_types (t ∷ u ∷ []) f c p = ground arith
  three_types (t ∷ u ∷ v ∷ ts) f c p = omega arith

  length-insert : (t : ℕ) (us : TokenStore) → length (insert t us) ≤ suc (length us)
  unfolding insert
  length-insert t [] = omega arith
  length-insert t (u ∷ us) = ground (arith, length-insert t us)

  pub length-tokens_of :
      (ms : TradeMsgStore) (old : TokenStore) → length (tokens_of old ms) ≤ length old + length ms
  length-tokens_of [] old = omega arith
  length-tokens_of (m ∷ ms) old =
      omega (arith, length-tokens_of ms (insert m.token old), length-insert m.token old)

  pub has_three_tokens :
      (ms : TradeMsgStore)
      → ((g : Leg) → has_leg td (type_of g) ms ≡ true)
      → 3 ≤ length (tokens_of [] ms)
  has_three_tokens ms legs =
      let has : (g : Leg) → has_type (type_of g) (tokens_of [] ms) ≡ true =
        λ g. ground (arith, tokens_of-has_type (type_of g) ms [], legs g) in
      three_types (tokens_of [] ms) (has fut) (has call) (has put)

module _ (td : TokenDataStore) (expiry strike : ℕ) where
  record Fits (t : ℕ) : Type 0 where
    info : OmsScripInfo
    known : find td t ≡ some info
    expiry_eq : info.expiry_date ≡ expiry
    call_eq : info.custom_instrument_type ≡ 2 → info.strike_price ≡ strike
    put_eq : info.custom_instrument_type ≡ 3 → info.strike_price ≡ strike

  insert-All : (t : ℕ) (us : TokenStore) → Fits t → All Fits us → All Fits (insert t us)
  unfolding insert
  insert-All t [] f all = (f, tt)
  insert-All t (u ∷ us) f (g, all) = elim (Bool-cases (lt32 t u)) [
    | inl less ↦ rw less (f, (g, all))
    | inr more ↦ elim (Bool-cases (t == u)) [
      | inl same ↦ rw (more, same) (g, all)
      | inr other ↦ rw (more, other) (g, insert-All t us f all)
    ]
  ]

  tokens_of-All :
      (ms : TradeMsgStore) (old : TokenStore)
      → All (Agrees td expiry strike strike) ms
      → All Fits old
      → All Fits (tokens_of old ms)
  tokens_of-All [] old all fits = fits
  tokens_of-All (m ∷ ms) old (a, all) fits = tokens_of-All ms (insert m.token old) all (
      insert-All m.token old
        (record {
          info = a.info;
          known = a.known;
          expiry_eq = a.expiry_eq;
          call_eq = a.call_eq;
          put_eq = a.put_eq;
        })
        fits)

  -- What the pass over the tokens has seen.
  record IsSeen (l : Legs) : Type 0 where
    of_fut : l.fut_token ≡ true → l.expiry_date1 ≡ expiry
    of_call : l.call_token ≡ true → (l.expiry_date2 ≡ expiry) × (l.strike_price1 ≡ strike)
    of_put : l.put_token ≡ true → (l.expiry_date3 ≡ expiry) × (l.strike_price2 ≡ strike)
    of_all : l.fut_token ≡ true → l.call_token ≡ true → l.put_token ≡ true → l.staus ≡ true

  settle-IsSeen : (t : ℕ) (l : Legs) (f : Fits t) → IsSeen l → IsSeen (settle (note f.info l))
  settle-IsSeen t l f s = record {
    of_fut = ground arith;
    of_call = ground arith;
    of_put = ground arith;
    of_all = ground arith;
  }

  see_token-eq : (t : ℕ) (l : Legs) (f : Fits t) → see_token td t l ≡ settle (note f.info l)
  unfolding see_token
  see_token-eq t l f = let k = f.known in ground arith

  see_tokens-IsSeen :
      (ts : TokenStore) (l : Legs) → All Fits ts → IsSeen l → IsSeen (see_tokens td ts l)
  unfolding see_tokens
  see_tokens-IsSeen [] l all s = s
  see_tokens-IsSeen (t ∷ ts) l (f, all) s =
      see_tokens-IsSeen ts (see_token td t l) all
        (subst IsSeen (sym (see_token-eq t l f)) (settle-IsSeen t l f s))

  -- The flags of the pass tell which instrument types the tokens have.
  abbrev Flags : TokenStore → Legs → Legs → Type 0
  Flags ts l l' =
      (l'.fut_token ≡ (l.fut_token || has_type td 1 ts))
      × (l'.call_token ≡ (l.call_token || has_type td 2 ts))
      × (l'.put_token ≡ (l.put_token || has_type td 3 ts))

  flags : (ts : TokenStore) (l : Legs) → All Fits ts → Flags ts l (see_tokens td ts l)
  unfolding see_tokens
  flags [] l all = (ground arith, ground arith, ground arith)
  flags (t ∷ ts) l (f, all) =
      let (a, b, c) = flags ts (see_token td t l) all in
      let e = see_token-eq t l f in
      let k = f.known in (ground (arith, e, k, a), ground (arith, e, k, b), ground (arith, e, k, c))

  Agrees-all_known :
      (ms : TradeMsgStore) → All (Agrees td expiry strike strike) ms → all_known td ms ≡ true
  Agrees-all_known [] all = refl
  Agrees-all_known (m ∷ ms) (a, all) = let k = a.known in ground (arith, Agrees-all_known ms all)

  -- One-sided trades of known contracts with one expiry date, the options with one strike price, are
  -- accepted if all legs are there and the legs' last sides are opposed.
  pub validate_trade_msg_records_complete :
      (ms : TradeMsgStore)
      → All (Agrees td expiry strike strike) ms
      → ((g : Leg) → has_leg td (type_of g) ms ≡ true)
      → is_con_rev (mark_known td ms no_sides) ≡ true
      → validate_trade_msg_records td (tokens_of [] ms) ms ≡ ok true
  validate_trade_msg_records_complete ms all legs opposed =
      let ts = tokens_of [] ms in
      let fits = tokens_of-All ms [] all tt in
      let seen =
        see_tokens-IsSeen ts no_legs fits (record {
          of_fut = λ e. cc;
          of_call = λ e. cc;
          of_put = λ e. cc;
          of_all = λ e _ _. cc;
        }) in
      let (a, b, c) = flags ts no_legs fits in
      let has = λ (g : Leg). tokens_of-has_type td (type_of g) ms [] in
      let staus : (see_tokens td ts no_legs).staus ≡ true =
        seen.of_all (ground (arith, a, has fut, legs fut)) (ground (arith, b, has call, legs call))
          (ground (arith, c, has put, legs put)) in
      let three = has_three_tokens td ms legs in
      ground (
        arith,
        validate_trade_msg_records-eq td ts ms,
        Agrees-all_known ms all,
        opposed,
        staus,
        three,
      )
