-- ===== src/Split.antt =====
-- main.cpp, `SplitTrade`: cuts the collected trades into groups that may be conversions or reversals.
-- The side characters that the function sets and never reads are left out.
pub mod Details
pub mod Erase
pub mod Middle
pub mod Groups
pub mod Erased
pub mod InRange
pub mod Kept
pub mod Steps
pub mod Safe
pub mod Sums
pub mod Level
pub mod Origin
pub mod Cuts
pub mod Picked
pub mod Turns
pub mod Third
pub mod Around
use real_time_cr.Prelude.{
  ◌==◌, ◌!=◌, if◌then◌else◌, length, null_pointer, Exec, ok, ◌>>=◌, deref, ℕ, ◌-◌, Bool, ◌&&◌, ◌||◌,
  Option, none, some, [], ◌∷◌, ◌++◌,
}
use real_time_cr.Split.Details.{
  ExtraDetails, reset_extra_details, see, get_extra_details, add_call, add_fut, add_put,
}
use real_time_cr.Contract.{
  TradeMsgStore, OmsScripInfo, TokenDataStore, is_unsided, TokenStore, TradeVectorStore, switch,
}
use real_time_cr.Message.{BcastMsg}
use real_time_cr.Split.Erase.{
  delete_packet_till_expiry_date, second_level_order_validation, refresh,
  delete_packet_till_strike_price,
}
use real_time_cr.Words.{sub32}
use real_time_cr.Split.Middle.{get_middle_qty}
use real_time_cr.Split.Groups.{first_group, second_group, third_group}

-- The variables of the loop: the open group, what is known of it, the contract pointer, which keeps
-- its value where a token is unknown, and the groups cut off.
pub record SplitState : Type 0 where
  pub trade_msg_store : TradeMsgStore
  pub details : ExtraDetails
  pub scrip : Option OmsScripInfo
  pub trade_vector_store : TradeVectorStore

-- The quantities of the legs are equal, and there are three tokens.
abbrev pub is_level : ExtraDetails → Bool
is_level d = d.fut_qty == d.call_qty && d.call_qty == d.put_qty && length d.token_store == 3

abbrev pub push : SplitState → TradeMsgStore → SplitState
push s group = record s { trade_vector_store = s.trade_vector_store ++ (group ∷ []) }

-- A packet of another expiry date, or an option of another strike price, than the open group.
abbrev pub other_expiry : OmsScripInfo → ExtraDetails → Bool
other_expiry info d = d.last_expiry_date != 0 && d.last_expiry_date != info.expiry_date

abbrev pub other_strike : OmsScripInfo → ExtraDetails → Bool
other_strike info d =
    d.strike_price != 0 && d.strike_price != info.strike_price && info.custom_instrument_type != 1

unfoldable pub drop_others : TokenDataStore → OmsScripInfo → SplitState → Exec SplitState
drop_others td info s =
    if other_expiry info s.details || other_strike info s.details
    then (do
      ms ←
          if other_expiry info s.details
          then delete_packet_till_expiry_date td info.expiry_date s.trade_msg_store
          else delete_packet_till_strike_price td info.strike_price s.trade_msg_store
      d ← get_extra_details td ms reset_extra_details
      ok (record s { trade_msg_store = ms; details = d }))
    else ok s

-- `SecondLevelOrderValidation`, `ResetExtraDetails` and `GetExtraDetails`.
unfoldable pub rescan : TokenDataStore → ℕ → SplitState → Exec SplitState
rescan td type s = do
  ms ← second_level_order_validation td type s.trade_msg_store
  d ← get_extra_details td ms reset_extra_details
  ok (record s { trade_msg_store = ms; details = d })

-- The leg changes, and comes back to one that the group has: `own` and `others` are its flags.
abbrev pub comes_back : OmsScripInfo → Bool → Bool → ExtraDetails → Bool
comes_back info own others d =
    (d.last_custom_instrument_type != 0
      && d.last_custom_instrument_type != info.custom_instrument_type)
    && (own && others)

unfoldable pub case_fut : TokenDataStore → OmsScripInfo → BcastMsg → SplitState → Exec SplitState
case_fut td info m s = do
  s1 ←
      if comes_back info s.details.fut_token (s.details.put_token || s.details.call_token) s.details
      then (if is_level s.details then ok (push s s.trade_msg_store) else (do
        t ← rescan td info.custom_instrument_type s
        ok (record t {
          details = record (t.details) { fut_qty = sub32 t.details.fut_qty m.trade_qty };
        })))
      else ok s
  ok (record s1 { details = add_fut info m s1.details })

unfoldable pub case_call : TokenDataStore → OmsScripInfo → BcastMsg → SplitState → Exec SplitState
case_call td info m s = do
  s1 ←
      if comes_back info s.details.call_token (s.details.put_token || s.details.fut_token) s.details
      then (if is_level s.details then ok (push s s.trade_msg_store) else (do
        t ← rescan td info.custom_instrument_type s
        ok (record t {
          details = record (t.details) { call_qty = sub32 t.details.call_qty m.trade_qty };
        })))
      else ok s
  ok (record s1 { details = add_call info m s1.details })

unfoldable pub case_put : TokenDataStore → OmsScripInfo → BcastMsg → SplitState → Exec SplitState
case_put td info m s = do
  s1 ←
      if comes_back info s.details.put_token (s.details.call_token || s.details.fut_token) s.details
      then (if is_level s.details then ok (push s s.trade_msg_store) else (do
        t ← rescan td info.custom_instrument_type s
        ok (record t {
          details = record (t.details) { put_qty = sub32 t.details.put_qty m.trade_qty };
        })))
      else ok s
  ok (record s1 { details = add_put info m s1.details })

-- The group picked around the middle leg, if the sums of the three parts agree.
unfoldable pub middle_group : TokenDataStore → TradeMsgStore → Exec (Option TradeMsgStore)
middle_group td ms = do
  mid ← get_middle_qty td ms
  one ← first_group ms mid.qty mid.start_index (record { packets = []; qty = 0 })
  two ← second_group ms mid.start_index (mid.end_index - mid.start_index) one.packets
  three ←
      third_group ms mid.qty mid.end_index (length ms - mid.end_index)
        (record { packets = two; qty = 0 })
  ok (if three.qty == one.qty && one.qty == mid.qty then some three.packets else none)

abbrev pub all_traded : ExtraDetails → Bool
all_traded d = d.fut_qty != 0 && d.call_qty != 0 && d.put_qty != 0 && length d.token_store == 3

-- A group cut off because it is level: the flags and the last expiry date stay as they are.
abbrev pub close_level : SplitState → SplitState
close_level s = record (push s s.trade_msg_store) {
  trade_msg_store = [];
  details = record (s.details) {
    token_store = [];
    fut_qty = 0;
    call_qty = 0;
    put_qty = 0;
    strike_price = 0;
    last_custom_instrument_type = 0;
  };
}

-- A group picked around the middle leg.
abbrev pub close_middle : SplitState → TradeMsgStore → SplitState
close_middle s group = record (push s group) { trade_msg_store = []; details = reset_extra_details }

abbrev pub close_picked : SplitState → Option TradeMsgStore → SplitState
close_picked s none = s
close_picked s (some group) = close_middle s group

-- The end of a round.
unfoldable pub cut : TokenDataStore → SplitState → Exec SplitState
cut td s =
    if is_level s.details
    then ok (close_level s)
    else if all_traded s.details
    then (do g ← middle_group td s.trade_msg_store; ok (close_picked s g))
    else ok s

abbrev pub append : BcastMsg → SplitState → SplitState
append m s = record s { trade_msg_store = s.trade_msg_store ++ (m ∷ []); details = see m s.details }

-- One round of the loop.
unfoldable pub split_one : TokenDataStore → BcastMsg → SplitState → Exec SplitState
split_one td m s =
    if is_unsided m
    then ok (record s { trade_msg_store = []; details = reset_extra_details })
    else (do
      info ← deref (refresh td m s.scrip) null_pointer
      s1 ← drop_others td info (record s { scrip = some info })
      let s2 = append m s1
      s3 ←
          switch info.custom_instrument_type (case_fut td info m s2) (case_call td info m s2)
            (case_put td info m s2) (ok s2)
      cut td s3)

unfoldable pub split_all : TokenDataStore → TradeMsgStore → SplitState → Exec SplitState
split_all td [] s = ok s
split_all td (m ∷ ms) s = do s' ← split_one td m s; split_all td ms s'

abbrev pub no_split : SplitState
no_split = record {
  trade_msg_store = [];
  details = reset_extra_details;
  scrip = none;
  trade_vector_store = [];
}

-- The groups that the caller's empty vector is filled with.
unfoldable pub split_trade : TokenDataStore → TokenStore → TradeMsgStore → Exec TradeVectorStore
split_trade td tokens ms =
    if length ms == 3 && length tokens == 3
    then ok (ms ∷ [])
    else (do s ← split_all td ms no_split; ok s.trade_vector_store)
