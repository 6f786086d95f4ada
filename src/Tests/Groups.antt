-- ===== src/Tests/Groups.antt =====
-- Groups of trades: validation, splitting and erasure.
use real_time_cr.Prelude.{All, ok, ◌%◌, ◌^◌, ◌≡◌, refl, true, some, [], ◌∷◌, ◌++◌, arith}
use real_time_cr.Contract.{
  find, TradeMsgStore, TradeVectorStore, Leg, IsKnown, has_leg, leg_qty, type_of, fut, call, put,
}
use real_time_cr.Split.{middle_group, split_trade}
use real_time_cr.ConRev.Sound.{IsBalanced, is_validate_con_rev-IsBalanced}
use real_time_cr.ConRev.{is_validate_con_rev, is_con_rev, no_sides}
use real_time_cr.Split.Erase.{
  delete_packet_till_expiry_date, second_level_order_validation, delete_packet_till_strike_price,
}
use real_time_cr.Tests.Data.{
  contracts, three_tokens, conversion, call_trade, put_trade, contract, fut_trade,
}
use real_time_cr.Words.{double_to_int64}
use real_time_cr.Validate.{see_tokens, validate_trade_msg_records}
use real_time_cr.ConRev.Complete.{Agrees, is_validate_con_rev_complete}
use real_time_cr.Split.Erased.{
  delete_packet_till_strike_price-eq, delete_packet_till_expiry_date-eq,
  second_level_order_validation-eq,
}
use real_time_cr.Split.Safe.{split_trade_safe}
use real_time_cr.ConRev.Rounds.{mark_known}
use real_time_cr.Validate.OnePass.{validate_trade_msg_records-eq}
use real_time_cr.Split.Origin.{Origin}
use real_time_cr.Split.Middle.{get_middle_qty}
use real_time_cr.Split.Groups.{first_group, second_group, third_group}
use real_time_cr.Split.Around.{Around, middle_group-Around}
use real_time_cr.Split.Turns.{legs_in}

-- The trades of a conversion are valid, and those of a reversal with another quantity are not.
conversion_runs : is_validate_con_rev contracts conversion ≡ ok true
unfolding is_validate_con_rev find double_to_int64
conversion_runs = refl

is_validate_con_rev-IsBalanced_example : IsBalanced contracts conversion
is_validate_con_rev-IsBalanced_example =
    is_validate_con_rev-IsBalanced contracts conversion conversion_runs

conversion-IsKnown : All (IsKnown contracts) conversion
unfolding find
conversion-IsKnown = ((contract 11 1, refl), ((contract 12 2, refl), ((contract 13 3, refl), tt)))

call_known : find contracts 12 ≡ some (contract 12 2)
unfolding find
call_known = refl

pub conversion-Agrees : All (Agrees contracts 20 100 100) conversion
unfolding find double_to_int64
conversion-Agrees = (fut-Agrees, (call-Agrees, (put-Agrees, tt)))
  where
    fut-Agrees : Agrees contracts 20 100 100 fut_trade
    fut-Agrees = record {
      info = contract 11 1;
      known = refl;
      sided = refl;
      expiry_eq = refl;
      call_eq = λ e. ground arith;
      put_eq = λ e. ground arith;
    }

    call-Agrees : Agrees contracts 20 100 100 call_trade
    call-Agrees = record {
      info = contract 12 2;
      known = refl;
      sided = refl;
      expiry_eq = refl;
      call_eq = λ _. refl;
      put_eq = λ _. refl;
    }

    put-Agrees : Agrees contracts 20 100 100 put_trade
    put-Agrees = record {
      info = contract 13 3;
      known = refl;
      sided = refl;
      expiry_eq = refl;
      call_eq = λ _. refl;
      put_eq = λ _. refl;
    }

pub conversion_legs : (g : Leg) → has_leg contracts (type_of g) conversion ≡ true
unfolding find
conversion_legs fut = refl
conversion_legs call = refl
conversion_legs put = refl

pub conversion_balance :
    (leg_qty contracts 1 conversion % 2 ^ 32 ≡ leg_qty contracts 2 conversion % 2 ^ 32)
    × (leg_qty contracts 2 conversion % 2 ^ 32 ≡ leg_qty contracts 3 conversion % 2 ^ 32)
    × (is_con_rev (mark_known contracts conversion no_sides) ≡ true)
unfolding find double_to_int64
conversion_balance = (refl, refl, refl)

is_validate_con_rev_complete_example : is_validate_con_rev contracts conversion ≡ ok true
is_validate_con_rev_complete_example =
    is_validate_con_rev_complete contracts 20 100 100 conversion conversion-Agrees conversion_legs
      conversion_balance.0 conversion_balance.1 conversion_balance.2

-- The one pass on the trades of a conversion, and on a trade in no known contract.
validate_trade_msg_records-eq_example :
    validate_trade_msg_records contracts three_tokens conversion ≡ ok true
unfolding find double_to_int64 see_tokens
validate_trade_msg_records-eq_example =
    validate_trade_msg_records-eq contracts three_tokens conversion

split_trade_safe_example :
    (groups : TradeVectorStore) × (split_trade contracts three_tokens conversion ≡ ok groups)
    × All (All (IsKnown contracts)) groups
split_trade_safe_example =
    split_trade_safe contracts (IsKnown contracts) three_tokens conversion conversion-IsKnown
      conversion-IsKnown

delete_packet_till_expiry_date-eq_example :
    delete_packet_till_expiry_date contracts 21 conversion ≡ ok []
unfolding find
delete_packet_till_expiry_date-eq_example =
    delete_packet_till_expiry_date-eq contracts 21 conversion conversion-IsKnown

delete_packet_till_strike_price-eq_example :
    delete_packet_till_strike_price contracts 90 (call_trade ∷ conversion) ≡ ok conversion
unfolding find
delete_packet_till_strike_price-eq_example =
    delete_packet_till_strike_price-eq contracts 90 (call_trade ∷ conversion)
      ((contract 12 2, call_known), conversion-IsKnown)

second_level_order_validation-eq_example :
    second_level_order_validation contracts 1 conversion ≡ ok (call_trade ∷ put_trade ∷ [])
unfolding find
second_level_order_validation-eq_example =
    second_level_order_validation-eq contracts 1 conversion conversion-IsKnown

-- Trades around a group of 100 for each leg.
abbrev uneven : TradeMsgStore
uneven =
    record fut_trade { trade_qty = 50 } ∷ conversion ++ (record put_trade { trade_qty = 50 } ∷ [])

uneven_legs : legs_in contracts uneven ≡ 3
unfolding find
uneven_legs = refl

uneven_runs : middle_group contracts uneven ≡ ok (some conversion)
unfolding middle_group get_middle_qty first_group second_group third_group find
uneven_runs = refl

middle_group-Around_example : Around contracts uneven conversion
middle_group-Around_example =
    middle_group-Around contracts uneven conversion uneven_legs uneven_runs
