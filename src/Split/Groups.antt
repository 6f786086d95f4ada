-- ===== src/Split/Groups.antt =====
-- main.cpp, the three loops of `SplitTrade` that pick a group out of the open trades by index.
use real_time_cr.Prelude.{
  ◌==◌, if◌then◌else◌, get_elem?, out_of_range, Exec, ok, ◌>>=◌, deref, ℕ, zero, suc, ◌+◌, [], ◌∷◌,
  ◌++◌,
}
use real_time_cr.Message.{BcastMsg}
use real_time_cr.Contract.{TradeMsgStore}
use real_time_cr.Words.{add32}

-- The packets picked so far and the running sum of their quantities.
pub record Picked : Type 0 where
  pub packets : TradeMsgStore
  pub qty : ℕ

abbrev pub pick : BcastMsg → Picked → Picked
pick m p = record { packets = p.packets ++ (m ∷ []); qty = add32 p.qty m.trade_qty }

-- `for(lnCount = k - 1; lnCount >= 0; --lnCount)`, until the sum is `qty`.
unfoldable pub first_group : TradeMsgStore → ℕ → ℕ → Picked → Exec Picked
first_group ms qty zero p = ok p
first_group ms qty (suc k) p = deref (get_elem? ms k) out_of_range >>= λ m.
    let rest = first_group ms qty k (pick m p) in
    if (pick m p).qty == qty then ok (pick m p) else rest

-- `for(lnCount = i; lnCount < i + k; ++lnCount)`; the sum is not kept.
unfoldable pub second_group : TradeMsgStore → ℕ → ℕ → TradeMsgStore → Exec TradeMsgStore
second_group ms i zero out = ok out
second_group ms i (suc k) out = do
  m ← deref (get_elem? ms i) out_of_range
  second_group ms (i + 1) k (out ++ (m ∷ []))

-- `for(lnCount = i; lnCount < i + k; ++lnCount)`, until the sum is `qty`.
unfoldable pub third_group : TradeMsgStore → ℕ → ℕ → ℕ → Picked → Exec Picked
third_group ms qty i zero p = ok p
third_group ms qty i (suc k) p = deref (get_elem? ms i) out_of_range >>= λ m.
    let rest = third_group ms qty (i + 1) k (pick m p) in
    if (pick m p).qty == qty then ok (pick m p) else rest
