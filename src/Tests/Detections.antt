-- ===== src/Tests/Detections.antt =====
-- A conversion that the writer finds.
use real_time_cr.Prelude.{All, ok, ◌%◌, ◌^◌, ◌≡◌, refl, [], ◌∷◌, ◌++◌, arith, sym, ap, ◌∙◌}
use real_time_cr.Contract.{TokenDataStore, OmsScripInfo, leg_qty, find}
use real_time_cr.Feed.Contracts.{SameContracts}
use real_time_cr.Feed.Detection.{IsTrade, write_all, write_all_detects}
use real_time_cr.ShmQueue.{enqueue}
use real_time_cr.Tests.Data.{contracts, conversion, order_message, contract}
use real_time_cr.Tests.Groups.{conversion-Agrees, conversion_legs, conversion_balance}
use real_time_cr.Tests.Queues.{records, empty, nothing}
use real_time_cr.Writer.Detection.{HasLot, IsPositive}
use real_time_cr.Writer.Groups.{ConRevTradeDetails}
use real_time_cr.Writer.Report.{IsReport}

conversion-IsTrade : All (IsTrade records) conversion
conversion-IsTrade = (
  record { kind = refl; small = omega arith },
  (record { kind = refl; small = omega arith }, (record { kind = refl; small = omega arith }, tt)),
)

fifty : (o i : OmsScripInfo) → o.board_lot_qty ≡ 50 → o ≡ i → IsPositive i.board_lot_qty
fifty o i lot same =
    let now : i.board_lot_qty ≡ 50 = sym (ap (λ (c : OmsScripInfo). c.board_lot_qty) same) ∙ lot in
    (ground arith, ground arith)

conversion-HasLot : All (HasLot contracts) conversion
unfolding find
conversion-HasLot = (
  λ i e. fifty (contract 11 1) i refl (ground arith),
  (
    λ i e. fifty (contract 12 2) i refl (ground arith),
    (λ i e. fifty (contract 13 3) i refl (ground arith), tt),
  ),
)

conversion-IsPositive : IsPositive (leg_qty contracts 1 conversion % 2 ^ 32)
unfolding find
conversion-IsPositive = (ground arith, ground arith)

write_all_detects_example :
    (r : ConRevTradeDetails) × (td : TokenDataStore) × SameContracts contracts td
    × IsReport td 3 conversion r
    × (write_all records (conversion ++ (order_message ∷ [])) (empty)
        ≡ ok (record (empty) { token_data_store = td; con_rev_q = (enqueue records r nothing).0 }))
write_all_detects_example =
    write_all_detects records 20 100 conversion order_message (empty) refl refl conversion-IsTrade
      conversion-Agrees conversion-HasLot conversion_legs conversion-IsPositive conversion_balance.0
      conversion_balance.1 conversion_balance.2
