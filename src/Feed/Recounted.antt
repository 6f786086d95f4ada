-- ===== src/Feed/Recounted.antt =====
-- What does not change for a group of trades when only the lots of the contracts are counted.
use real_time_cr.Prelude.{All, ℕ, ◌≡◌, refl, sym, ap, ◌∙◌, Option, none, some, [], ◌∷◌, arith}
use real_time_cr.Contract.{
  OmsScripInfo, TokenDataStore, TradeMsgStore, find, leg_type, leg_qty, has_leg,
}
use real_time_cr.ConRev.{Sides}
use real_time_cr.ConRev.Complete.{Agrees}
use real_time_cr.ConRev.Rounds.{mark_known, mark_found, mark_trade}
use real_time_cr.Feed.Contracts.{uncounted, SameContracts}
use real_time_cr.Message.{BcastMsg}
use real_time_cr.Writer.Detection.{HasLot, IsPositive}

-- The contract that stands for `i` now.
record Recounted (o : Option OmsScripInfo) (i : OmsScripInfo) : Type 0 where
  now : OmsScripInfo
  found : o ≡ some now
  same : record now { total_traded = 0 } ≡ record i { total_traded = 0 }

abbrev or_else : OmsScripInfo → Option OmsScripInfo → OmsScripInfo
or_else i none = i
or_else i (some j) = j

recounted :
    (o : Option OmsScripInfo) (i : OmsScripInfo) → uncounted o ≡ uncounted (some i) → Recounted o i
recounted none i e = absurd (ground arith)
recounted (some j) i e = record { now = j; found = refl; same = ap (or_else i) e }

abbrev type_in : Option OmsScripInfo → ℕ
type_in o = elim o [ none ↦ 0 | some info ↦ info.custom_instrument_type ]

type_in-uncounted : (o : Option OmsScripInfo) → type_in (uncounted o) ≡ type_in o
type_in-uncounted none = refl
type_in-uncounted (some i) = refl

mark_found-uncounted :
    (o : Option OmsScripInfo) (m : BcastMsg) (s : Sides)
    → mark_found (uncounted o) m s ≡ mark_found o m s
mark_found-uncounted none m s = refl
mark_found-uncounted (some i) m s = refl

module _ (td td' : TokenDataStore) (same : SameContracts td td') where
  leg_type-same : (m : BcastMsg) → leg_type td' m ≡ leg_type td m
  leg_type-same m =
      sym (type_in-uncounted (find td' m.token))
      ∙ ap type_in (same m.token)
      ∙ type_in-uncounted (find td m.token)

  pub leg_qty-same : (k : ℕ) (ms : TradeMsgStore) → leg_qty td' k ms ≡ leg_qty td k ms
  leg_qty-same k [] = refl
  leg_qty-same k (m ∷ ms) = let e = leg_type-same m in let ih = leg_qty-same k ms in cc

  pub has_leg-same : (k : ℕ) (ms : TradeMsgStore) → has_leg td' k ms ≡ has_leg td k ms
  has_leg-same k [] = refl
  has_leg-same k (m ∷ ms) = let e = leg_type-same m in let ih = has_leg-same k ms in cc

  mark_trade-same : (m : BcastMsg) (s : Sides) → mark_trade td' m s ≡ mark_trade td m s
  mark_trade-same m s =
      sym (mark_found-uncounted (find td' m.token) m s)
      ∙ ap (λ o. mark_found o m s) (same m.token)
      ∙ mark_found-uncounted (find td m.token) m s

  pub mark_known-same : (ms : TradeMsgStore) (s : Sides) → mark_known td' ms s ≡ mark_known td ms s
  mark_known-same [] s = refl
  mark_known-same (m ∷ ms) s =
      mark_known-same ms (mark_trade td' m s) ∙ ap (mark_known td ms) (mark_trade-same m s)

  module _ (expiry strike : ℕ) where
    Agrees-same :
        (m : BcastMsg) → Agrees td expiry strike strike m → Agrees td' expiry strike strike m
    Agrees-same m a =
        let r = recounted (find td' m.token) a.info (same m.token ∙ ap uncounted a.known) in
        let e = r.same in
        let type = ap (λ i. i.custom_instrument_type) e in
        let price = ap (λ i. i.strike_price) e in
        record {
          info = r.now;
          known = r.found;
          sided = a.sided;
          expiry_eq = ap (λ i. i.expiry_date) e ∙ a.expiry_eq;
          call_eq = λ c. price ∙ a.call_eq (sym type ∙ c);
          put_eq = λ c. price ∙ a.put_eq (sym type ∙ c);
        }

    pub All-Agrees-same :
        (ms : TradeMsgStore)
        → All (Agrees td expiry strike strike) ms
        → All (Agrees td' expiry strike strike) ms
    All-Agrees-same [] all = tt
    All-Agrees-same (m ∷ ms) (a, all) = (Agrees-same m a, All-Agrees-same ms all)

  HasLot-same : (m : BcastMsg) → HasLot td m → HasLot td' m
  HasLot-same m lot i e = go (find td m.token) refl
    where
      go : (o : Option OmsScripInfo) → find td m.token ≡ o → IsPositive i.board_lot_qty
      go none k = absurd (ground (arith, same m.token))
      go (some j) k =
          let p = lot j k in
          let f : uncounted (some i) ≡ uncounted (some j) =
            sym (ap uncounted e) ∙ same m.token ∙ ap uncounted k in
          let l : i.board_lot_qty ≡ j.board_lot_qty = ap (λ o. (or_else i o).board_lot_qty) f in
          rw l p

  pub All-HasLot-same : (ms : TradeMsgStore) → All (HasLot td) ms → All (HasLot td') ms
  All-HasLot-same [] all = tt
  All-HasLot-same (m ∷ ms) (a, all) = (HasLot-same m a, All-HasLot-same ms all)
