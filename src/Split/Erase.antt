-- ===== src/Split/Erase.antt =====
-- main.cpp, `SecondLevelOrderValidation`, `DeletePacketTillExpiryDate` and
-- `DeletePacketTillStrikePrice`: the erasures from the open group of `SplitTrade`. A pointer to
-- contract data keeps its value where a token is unknown.
use real_time_cr.Prelude.{
  ◌==◌, ◌!=◌, if◌then◌else◌, length, null_pointer, end_iterator, Exec, ok, fault, ◌>>=◌, deref, ℕ,
  zero, suc, Option, none, some, [], ◌∷◌,
}
use real_time_cr.Contract.{TradeMsgStore, TokenDataStore, OmsScripInfo, find}
use real_time_cr.Message.{BcastMsg}

abbrev pub refresh : TokenDataStore → BcastMsg → Option OmsScripInfo → Option OmsScripInfo
refresh td m old = elim (find td m.token) [ none ↦ old | some info ↦ some info ]

-- `while(type of the first == n) erase the first`. The iterator of an empty vector is its end.
unfoldable pub erase_while :
    TokenDataStore → ℕ → Option OmsScripInfo → TradeMsgStore → Exec TradeMsgStore
erase_while td n scrip [] = fault end_iterator
erase_while td n scrip (m ∷ ms) = deref (refresh td m scrip) null_pointer >>= λ info.
    let rest = erase_while td n (some info) ms in
    if info.custom_instrument_type == n then rest else ok (m ∷ ms)

unfoldable pub second_level_order_validation :
    TokenDataStore → ℕ → TradeMsgStore → Exec TradeMsgStore
second_level_order_validation td n [] = ok []
second_level_order_validation td n (m ∷ []) = ok (m ∷ [])
second_level_order_validation td n (m ∷ m' ∷ ms) = erase_while td n none (m ∷ m' ∷ ms)

-- One pass of the inner loop: it erases one packet and breaks, reaches the end, or returns from the
-- function.
pub data Pass : Type 0 where
  erased : TradeMsgStore → Pass
  reached_end : Pass
  returned : Pass

abbrev pub behind : BcastMsg → Pass → Pass
behind m (erased ms) = erased (m ∷ ms)
behind m reached_end = reached_end
behind m returned = returned

unfoldable pub expiry_pass : TokenDataStore → ℕ → Option OmsScripInfo → TradeMsgStore → Exec Pass
expiry_pass td expiry scrip [] = ok reached_end
expiry_pass td expiry scrip (m ∷ ms) = deref (refresh td m scrip) null_pointer >>= λ info.
    let rest = expiry_pass td expiry (some info) ms in
    if expiry != info.expiry_date then ok (erased ms) else (rest >>= λ p. ok (behind m p))

unfoldable pub strike_pass : TokenDataStore → ℕ → Option OmsScripInfo → TradeMsgStore → Exec Pass
strike_pass td strike scrip [] = ok reached_end
strike_pass td strike scrip (m ∷ ms) = deref (refresh td m scrip) null_pointer >>= λ info.
    let rest = strike_pass td strike (some info) ms in
    if info.custom_instrument_type == 1
    then ok returned
    else if strike != info.strike_price
    then ok (erased ms)
    else (rest >>= λ p. ok (behind m p))

-- The outer loops: as many passes as there were packets, each with a fresh null pointer.
unfoldable pub passes : ℕ → (TradeMsgStore → Exec Pass) → TradeMsgStore → Exec TradeMsgStore
passes zero pass ms = ok ms
passes (suc n) pass ms = pass ms >>= λ p. elim p [
  | erased ms' ↦ passes n pass ms'
  | reached_end ↦ passes n pass ms
  | returned ↦ ok ms
]

unfoldable pub delete_packet_till_expiry_date :
    TokenDataStore → ℕ → TradeMsgStore → Exec TradeMsgStore
unfolding passes expiry_pass
delete_packet_till_expiry_date td expiry ms = passes (length ms) (expiry_pass td expiry none) ms

unfoldable pub delete_packet_till_strike_price :
    TokenDataStore → ℕ → TradeMsgStore → Exec TradeMsgStore
unfolding passes strike_pass
delete_packet_till_strike_price td strike ms = passes (length ms) (strike_pass td strike none) ms
