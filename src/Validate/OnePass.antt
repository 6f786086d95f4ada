-- ===== src/Validate/OnePass.antt =====
-- The nested loops of `ValidateTradeMsgRecords` come to one pass over the trades.
use real_time_cr.Prelude.{
  leb, ◌==◌, if◌then◌else◌, Bool-cases, Option-cases, length, All, null_pointer, ok, fault, ◌≡◌,
  refl, ap, ◌∙◌, ◌⊎◌, inl, inr, Bool, true, false, ◌&&◌, ◌||◌, Option, none, some, [], ◌∷◌, arith,
}
use real_time_cr.Contract.{
  OmsScripInfo, TokenDataStore, TradeMsgStore, find, no_sell, no_buy, TokenStore,
}
use real_time_cr.Validate.{
  mark_all, Sides, outer, mark_one, validate_trade_msg_records, see_tokens, no_legs,
}
use real_time_cr.Message.{BcastMsg}
use real_time_cr.ConRev.{Sides, mark, no_sides, is_con_rev}
use real_time_cr.ConRev.Rounds.{mark_known, mark_trade, mark_found}

mark-mark :
    (a b : OmsScripInfo) (x m : BcastMsg) (s : Sides)
    → (mark a x (mark b m s) ≡ mark a x s) ⊎ (mark a x (mark b m s) ≡ mark b m (mark a x s))
mark-mark a b x m s = elim (Bool-cases (a.custom_instrument_type == b.custom_instrument_type)) [
  | inl same ↦ elim (Bool-cases (no_sell x || no_buy x)) [
    | inl sided ↦ inl (ground arith)
    | inr free ↦ inr (ground arith)
  ]
  | inr other ↦ inr (ground arith)
]

mark_found-mark_found :
    (a b : Option OmsScripInfo) (x m : BcastMsg) (s : Sides)
    → (mark_found a x (mark_found b m s) ≡ mark_found a x s)
      ⊎ (mark_found a x (mark_found b m s) ≡ mark_found b m (mark_found a x s))
mark_found-mark_found none none x m s = inl refl
mark_found-mark_found none (some b) x m s = inr refl
mark_found-mark_found (some a) none x m s = inr refl
mark_found-mark_found (some a) (some b) x m s = mark-mark a b x m s

module _ (td : TokenDataStore) where
  -- A second pass over a group that holds `m` does not see whether `m` was marked before.
  abbrev Absorbs : TradeMsgStore → BcastMsg → Type 0
  Absorbs all m = (s : Sides) → mark_known td all (mark_trade td m s) ≡ mark_known td all s

  mark_trade_twice :
      (m : BcastMsg) (s : Sides) → mark_trade td m (mark_trade td m s) ≡ mark_trade td m s
  mark_trade_twice m s = ground arith

  Absorbs-cons : (x m : BcastMsg) (ms : TradeMsgStore) → Absorbs ms m → Absorbs (x ∷ ms) m
  Absorbs-cons x m ms h s = elim (mark_found-mark_found (find td x.token) (find td m.token) x m s) [
    | inl e ↦ ap (mark_known td ms) e
    | inr e ↦ ap (mark_known td ms) e ∙ h (mark_trade td x s)
  ]

  All-Absorbs-cons :
      (x : BcastMsg) (ms rest : TradeMsgStore) → All (Absorbs ms) rest → All (Absorbs (x ∷ ms)) rest
  All-Absorbs-cons x ms [] h = tt
  All-Absorbs-cons x ms (m ∷ rest) (h, hs) = (Absorbs-cons x m ms h, All-Absorbs-cons x ms rest hs)

  Absorbs-All : (ms : TradeMsgStore) → All (Absorbs ms) ms
  Absorbs-All [] = tt
  Absorbs-All (m ∷ ms) =
      (λ s. ap (mark_known td ms) (mark_trade_twice m s), All-Absorbs-cons m ms ms (Absorbs-All ms))

  absorb_rest :
      (all ms : TradeMsgStore) (s : Sides)
      → All (Absorbs all) ms
      → mark_known td all (mark_known td ms s) ≡ mark_known td all s
  absorb_rest all [] s h = refl
  absorb_rest all (m ∷ ms) s (h, hs) = absorb_rest all ms (mark_trade td m s) hs ∙ h s

  -- The tokens of all trades are known.
  abbrev pub all_known : TradeMsgStore → Bool
  all_known [] = true
  all_known (m ∷ ms) = elim (find td m.token) [ none ↦ false | some _ ↦ all_known ms ]

  abbrev not_nil : TradeMsgStore → Bool
  not_nil [] = false
  not_nil (m ∷ ms) = true

  mark_all-eq :
      (ms : TradeMsgStore) (s : Sides)
      → mark_all td ms s ≡ (if all_known ms then ok (mark_known td ms s) else fault null_pointer)
  unfolding mark_all
  mark_all-eq [] s = refl
  mark_all-eq (m ∷ ms) s = elim (Option-cases (find td m.token)) [
    | inl e ↦ ground arith
    | inr (info, e) ↦ ground (arith, mark_all-eq ms (mark info m s))
  ]

  outer-eq :
      (staus : Bool) (all ms : TradeMsgStore) (s : Sides)
      → all_known all ≡ true
      → all_known ms ≡ true
      → All (Absorbs all) ms
      → mark_known td all s ≡ mark_known td all no_sides
      → outer td staus all ms s
        ≡ ok (not_nil ms && is_con_rev (mark_known td all no_sides) && staus)
  unfolding outer mark_one
  outer-eq staus all [] s k km h e = refl
  outer-eq staus all (m ∷ ms) s k km (h, hs) e = elim (Option-cases (find td m.token)) [
    | inl f ↦ ground arith
    | inr (info, f) ↦ ground (
      arith,
      h s,
      mark_all-eq all (mark info m s),
      absorb_rest all all no_sides (Absorbs-All all),
      outer-eq staus all ms (mark_known td all no_sides) k,
    )
  ]

  outer_unknown :
      (staus : Bool) (all ms : TradeMsgStore) (s : Sides)
      → all_known all ≡ false
      → not_nil ms ≡ true
      → outer td staus all ms s ≡ fault null_pointer
  unfolding outer mark_one
  outer_unknown staus all (m ∷ ms) s u n = elim (Option-cases (find td m.token)) [
    | inl f ↦ ground arith
    | inr (info, f) ↦ ground (arith, mark_all-eq all (mark info m s))
  ]
  outer_unknown staus all [] s u n = cc

  -- One pass over the trades decides: with at least three tokens the result is `true` exactly when
  -- the tokens fit and the last sides of the legs are opposed, if every trade's token is known; if
  -- one is not, the loop reads through a null pointer.
  pub validate_trade_msg_records-eq :
      (tokens : TokenStore) (ms : TradeMsgStore)
      → validate_trade_msg_records td tokens ms ≡ (
          if leb 3 (length tokens)
          then (if all_known ms
              then ok
                  (is_con_rev (mark_known td ms no_sides) && (see_tokens td tokens no_legs).staus)
              else fault null_pointer)
          else ok false)
  unfolding validate_trade_msg_records
  validate_trade_msg_records-eq tokens ms =
      ap (λ r. if leb 3 (length tokens) then r else ok false)
        (loop (see_tokens td tokens no_legs).staus ms)
    where
      loop :
          (staus : Bool) (ms : TradeMsgStore)
          → outer td staus ms ms no_sides ≡ (
              if all_known ms
              then ok (is_con_rev (mark_known td ms no_sides) && staus)
              else fault null_pointer)
      loop staus [] = refl
      loop staus (m ∷ ms) = elim (Bool-cases (all_known (m ∷ ms))) [
        | inl k ↦ rw k (outer-eq staus (m ∷ ms) (m ∷ ms) no_sides k k (Absorbs-All (m ∷ ms)) refl)
        | inr u ↦ rw u (outer_unknown staus (m ∷ ms) (m ∷ ms) no_sides u refl)
      ]
