-- ===== src/Writer/Reported.antt =====
-- The records that the loop over the groups queues.
use real_time_cr.Prelude.{
  Exec, ok, fault, ◌>>=◌, bind-eq-ok, ℕ, ◌≡◌, refl, ◌⊎◌, inl, inr, Bool, true, false, Option, none,
  List, [], ◌∷◌, arith,
}
use real_time_cr.Contract.{TokenDataStore, TradeMsgStore, TradeVectorStore}
use real_time_cr.Writer.Groups.{ConRevTradeDetails, handle_group, Carried, handle_groups, cons_some}
use real_time_cr.ConRev.{is_validate_con_rev}
use real_time_cr.Writer.Report.{IsReport, handle_group-IsReport}

-- The groups and the records queued for them, in order: a group that is refused gives none.
pub data Reports (td : TokenDataStore) (stream : ℕ)
    : TradeVectorStore → List ConRevTradeDetails → Type 0 where
  no_group : Reports td stream [] []
  skipped :
      {g : TradeMsgStore} {gs : TradeVectorStore} {rs : List ConRevTradeDetails}
      → is_validate_con_rev td g ≡ ok false
      → Reports td stream gs rs
      → Reports td stream (g ∷ gs) rs
  reported :
      {g : TradeMsgStore} {gs : TradeVectorStore} {r : ConRevTradeDetails}
      {rs : List ConRevTradeDetails}
      → is_validate_con_rev td g ≡ ok true
      → IsReport td stream g r
      → Reports td stream gs rs
      → Reports td stream (g ∷ gs) (r ∷ rs)

-- Either the group is refused and nothing changes, or it is accepted.
handle_group_cases :
    (td : TokenDataStore) (stream : ℕ) (g : TradeMsgStore) (c c' : Carried)
    (o : Option ConRevTradeDetails)
    → handle_group td stream g c ≡ ok (o, c')
    → ((is_validate_con_rev td g ≡ ok false) × (o ≡ none)) ⊎ (is_validate_con_rev td g ≡ ok true)
unfolding handle_group
handle_group_cases td stream g c c' o h = go (is_validate_con_rev td g) refl
  where
    go :
        (v : Exec Bool)
        → is_validate_con_rev td g ≡ v
        → ((is_validate_con_rev td g ≡ ok false) × (o ≡ none))
          ⊎ (is_validate_con_rev td g ≡ ok true)
    go (ok true) e = inr e
    go (ok false) e = inl (e, ground arith)
    go (fault f) e = absurd (ground arith)

-- What the loop over the groups queues, if no division traps, are the reports of the accepted groups,
-- in order, one for each.
pub handle_groups-Reports :
    (td : TokenDataStore) (stream : ℕ) (gs : TradeVectorStore) (c : Carried)
    (rs : List ConRevTradeDetails)
    → handle_groups td stream gs c ≡ ok rs
    → Reports td stream gs rs
unfolding handle_groups
handle_groups-Reports td stream [] c rs h = let e : [] ≡ rs = ground arith in rw (← e) no_group
handle_groups-Reports td stream (g ∷ gs) c rs h =
    let ((o, c'), e, h1) =
      bind-eq-ok (handle_group td stream g c)
        (λ p. handle_groups td stream gs p.1 >>= λ rest. ok (cons_some p.0 rest)) h in
    let (rest, f, h2) =
      bind-eq-ok (handle_groups td stream gs c') (λ rest. ok (cons_some o rest)) h1 in
    let later = handle_groups-Reports td stream gs c' rest f in
    elim (handle_group_cases td stream g c c' o e) [
      | inl (v, n) ↦ let same : rest ≡ rs = ground arith in rw (← same) (skipped v later)
      | inr v ↦
          let (r, y, report) = handle_group-IsReport td stream g c c' o v e in
          let same : r ∷ rest ≡ rs = ground arith in rw (← same) (reported v report later)
    ]
