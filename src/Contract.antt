-- ===== src/Contract.antt =====
-- struct_conrevtrade.h and the containers of main.cpp: contracts, the token maps and sets.
use real_time_cr.Prelude.{
  ◌==◌, if◌then◌else◌, ℕ, ◌+◌, ◌≡◌, refl, Bool, true, false, ◌||◌, Option, none, some, List, [],
  ◌∷◌, ◌++◌, arith,
}
use real_time_cr.Words.{lt32, double_to_int64}
use real_time_cr.Message.{BcastMsg}

-- `OMSScripInfo`. The instrument type is 1 for a future, 2 for a call, 3 for a put.
pub record OmsScripInfo : Type 0 where
  pub expiry_date : ℕ
  pub strike_price : ℕ
  pub token : ℕ
  pub board_lot_qty : ℕ
  pub min_lot_qty : ℕ
  pub tick_size : ℕ
  pub custom_instrument_type : ℕ
  pub symbol : List ℕ
  pub series : List ℕ
  pub symbol_name : List ℕ
  pub total_traded : ℕ

-- `TOKENDATA_STORE`, an association list; `TRADE_MSG_STORE`; `TRADE_VECTOR_STORE`.
abbrev pub TokenDataStore : Type 0
TokenDataStore = List (ℕ × OmsScripInfo)

abbrev pub TradeMsgStore : Type 0
TradeMsgStore = List BcastMsg

abbrev pub TradeVectorStore : Type 0
TradeVectorStore = List TradeMsgStore

unfoldable pub find : TokenDataStore → ℕ → Option OmsScripInfo
find [] t = none
find ((k, info) ∷ td) t = if k == t then some info else find td t

-- A write through the pointer that the map holds for `t`.
unfoldable pub store : TokenDataStore → ℕ → OmsScripInfo → TokenDataStore
store [] t new = []
store ((k, info) ∷ td) t new = if k == t then (k, new) ∷ td else (k, info) ∷ store td t new

-- `TOKEN_STORE`, a `std::set<int32_t>`: its elements in ascending order.
abbrev pub TokenStore : Type 0
TokenStore = List ℕ

unfoldable pub insert : ℕ → TokenStore → TokenStore
insert t [] = t ∷ []
insert t (u ∷ us) = if lt32 t u then t ∷ u ∷ us else if t == u then u ∷ us else u ∷ insert t us

-- `switch(nCustomInstrumentType)` with the cases 1, 2 and 3.
abbrev pub switch {ℓ} : {A : Type ℓ} → ℕ → A → A → A → A → A
switch type fut call put other =
    if type == 1 then fut else if type == 2 then call else if type == 3 then put else other

-- The tests `lnBuyOrderId == 0` and `lnSellOrderId == 0`, on the truncated ids.
abbrev pub no_buy : BcastMsg → Bool
no_buy m = double_to_int64 m.buy_ord_id == 0

abbrev pub no_sell : BcastMsg → Bool
no_sell m = double_to_int64 m.sell_ord_id == 0

-- Both ids are 0, or neither is.
abbrev pub is_unsided : BcastMsg → Bool
is_unsided m = if no_buy m then no_sell m else (if no_sell m then false else true)

pub find-store :
    (td : TokenDataStore) (t j : ℕ) (old new : OmsScripInfo)
    → find td t ≡ some old
    → find (store td t new) j ≡ (if t == j then some new else find td j)
unfolding find store
find-store [] t j old new h = cc
find-store ((k, info) ∷ td) t j old new h = ground (arith, find-store td t j old new)

-- The instrument type of a trade; 0 if the token is unknown.
abbrev pub leg_type : TokenDataStore → BcastMsg → ℕ
leg_type td m = elim (find td m.token) [ none ↦ 0 | some info ↦ info.custom_instrument_type ]

-- The quantity that the trades of one leg add up to.
abbrev pub leg_qty : TokenDataStore → ℕ → TradeMsgStore → ℕ
leg_qty td leg [] = 0
leg_qty td leg (m ∷ ms) = (if leg_type td m == leg then m.trade_qty else 0) + leg_qty td leg ms

abbrev pub has_leg : TokenDataStore → ℕ → TradeMsgStore → Bool
has_leg td leg [] = false
has_leg td leg (m ∷ ms) = leg_type td m == leg || has_leg td leg ms

abbrev pub IsKnown : TokenDataStore → BcastMsg → Type 0
IsKnown td m = (info : OmsScripInfo) × (find td m.token ≡ some info)

-- The legs of a conversion by name, and the instrument type of each.
pub data Leg : Type 0 where
  fut call put : Leg

abbrev pub type_of : Leg → ℕ
type_of fut = 1
type_of call = 2
type_of put = 3

-- The tokens of a list of trades, as a set.
abbrev pub tokens_of : TokenStore → TradeMsgStore → TokenStore
tokens_of old [] = old
tokens_of old (m ∷ ms) = tokens_of (insert m.token old) ms

pub tokens_of-append :
    (old : TokenStore) (ms : TradeMsgStore) (m : BcastMsg)
    → tokens_of old (ms ++ (m ∷ [])) ≡ insert m.token (tokens_of old ms)
tokens_of-append old [] m = refl
tokens_of-append old (x ∷ ms) m = tokens_of-append (insert x.token old) ms m
