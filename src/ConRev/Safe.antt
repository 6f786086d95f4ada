-- ===== src/ConRev/Safe.antt =====
-- `IsValidateConRev` reads through no null pointer where all tokens are known.
use real_time_cr.Prelude.{
  Bool-cases, Option-cases, All, Fault, ok, fault, ◌≢◌, inl, inr, [], ◌∷◌, arith, bind-eq-fault,
}
use real_time_cr.Contract.{TokenDataStore, TradeMsgStore, IsKnown, is_unsided}
use real_time_cr.ConRev.{
  is_validate_con_rev, scan_all, TradeMsgStore, scan_one, Scan, is_unsided, no_scan, scan_leg,
  verdict,
}

module _ (td : TokenDataStore) where
  scan_all-fault :
      (ms : TradeMsgStore) (s : Scan) (f : Fault) → All (IsKnown td) ms → scan_all td ms s ≢ fault f
  unfolding scan_all scan_one
  scan_all-fault [] s f k h = cc
  scan_all-fault (m ∷ ms) s f ((info, e), k) h = elim (Bool-cases (is_unsided m)) [
    | inl u ↦ ground arith
    | inr sided ↦ elim (Option-cases (scan_leg info m s)) [
      | inl n ↦ ground (arith, e)
      | inr (s1, y) ↦ scan_all-fault ms s1 f k (ground (arith, e))
    ]
  ]

  -- `IsValidateConRev` comes to its end on trades whose tokens are all known.
  pub is_validate_con_rev-fault :
      (ms : TradeMsgStore) (f : Fault) → All (IsKnown td) ms → is_validate_con_rev td ms ≢ fault f
  unfolding is_validate_con_rev
  is_validate_con_rev-fault ms f k h =
      elim (bind-eq-fault (scan_all td ms no_scan) (λ r. ok (verdict r)) h) [
        | inl e ↦ scan_all-fault ms no_scan f k e
        | inr (r, _, e) ↦ cc
      ]
