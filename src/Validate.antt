-- ===== src/Validate.antt =====
-- main.cpp, `ValidateTradeMsgRecords`: whether the collected trades may hold a conversion or reversal.
pub mod OnePass
pub mod Complete
use real_time_cr.Prelude.{
  leb, ◌==◌, if◌then◌else◌, length, null_pointer, Exec, ok, ◌>>=◌, deref, ℕ, Bool, true, false,
  ◌&&◌, none, some, [], ◌∷◌,
}
use real_time_cr.Message.{BcastMsg}
use real_time_cr.Contract.{OmsScripInfo, TokenDataStore, TokenStore, TradeMsgStore, find, switch}
use real_time_cr.ConRev.{Sides, no_sides, mark, is_con_rev}

-- The variables of the loop over the tokens. The test on a second future assigns what the next line
-- assigns again, and is left out.
pub record Legs : Type 0 where
  pub fut_token : Bool
  pub put_token : Bool
  pub call_token : Bool
  pub strike_price1 : ℕ
  pub strike_price2 : ℕ
  pub expiry_date1 : ℕ
  pub expiry_date2 : ℕ
  pub expiry_date3 : ℕ
  pub staus : Bool

abbrev pub no_legs : Legs
no_legs = record {
  fut_token = false;
  put_token = false;
  call_token = false;
  strike_price1 = 0;
  strike_price2 = 0;
  expiry_date1 = 0;
  expiry_date2 = 0;
  expiry_date3 = 0;
  staus = false;
}

abbrev pub note : OmsScripInfo → Legs → Legs
note info l =
    switch info.custom_instrument_type
      (record l { fut_token = true; expiry_date1 = info.expiry_date })
      (record l {
        call_token = true;
        strike_price1 = info.strike_price;
        expiry_date2 = info.expiry_date;
      })
      (record l {
        put_token = true;
        strike_price2 = info.strike_price;
        expiry_date3 = info.expiry_date;
      })
      l

abbrev fits : Legs → Bool
fits l =
    (l.fut_token && l.put_token && l.call_token)
    && l.strike_price1 == l.strike_price2
    && (l.expiry_date3 == l.expiry_date2 && l.expiry_date2 == l.expiry_date1)

abbrev pub settle : Legs → Legs
settle l = if fits l then record l { staus = true } else l

-- Unknown tokens are passed over.
unfoldable pub see_token : TokenDataStore → ℕ → Legs → Legs
see_token td t l = elim (find td t) [ none ↦ l | some info ↦ settle (note info l) ]

unfoldable pub see_tokens : TokenDataStore → TokenStore → Legs → Legs
unfolding see_token
see_tokens td [] l = l
see_tokens td (t ∷ ts) l = see_tokens td ts (see_token td t l)

-- The body that the two loops over the trades share; an unknown token is a null pointer.
pub mark_one : TokenDataStore → BcastMsg → Sides → Exec Sides
mark_one td m s = do info ← deref (find td m.token) null_pointer; ok (mark info m s)

-- The inner loop.
unfoldable pub mark_all : TokenDataStore → TradeMsgStore → Sides → Exec Sides
unfolding mark_one
mark_all td [] s = ok s
mark_all td (m ∷ ms) s = do s' ← mark_one td m s; mark_all td ms s'

-- The outer loop over the rest `ms` of the trades `all`, the inner one inside it.
pub outer : TokenDataStore → Bool → TradeMsgStore → TradeMsgStore → Sides → Exec Bool
outer td staus all [] s = ok false
outer td staus all (m ∷ ms) s = do
  s1 ← mark_one td m s
  s2 ← mark_all td all s1
  let rest = outer td staus all ms s2
  if is_con_rev s2 && staus then ok true else rest

unfoldable pub validate_trade_msg_records : TokenDataStore → TokenStore → TradeMsgStore → Exec Bool
unfolding outer mark_one mark_all see_tokens
validate_trade_msg_records td tokens ms =
    if leb 3 (length tokens)
    then outer td (see_tokens td tokens no_legs).staus ms ms no_sides
    else ok false
