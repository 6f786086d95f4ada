-- ===== src/Tests/Files.antt =====
-- Contract files.
use real_time_cr.Prelude.{
  ◌==◌, if◌then◌else◌, Bool-cases, All, ℕ, ◌≡◌, refl, inl, inr, Bool, true, false, ◌||◌, some, List,
  [], ◌∷◌, arith,
}
use real_time_cr.Tests.Codes.{codes}
use real_time_cr.FileDigester.Text.{same_text, lines, c_string, atoi, read_digits}
use real_time_cr.Contract.{OmsScripInfo, find}
use real_time_cr.FileDigester.Written.{IsPlain}
use real_time_cr.FileDigester.{file_digester, no_scrip_info}
use real_time_cr.FileDigester.Record.{contract_of}
use real_time_cr.FileDigester.Cells.{IsContract, is_future}
use real_time_cr.FileDigester.Columns.{columns}
use real_time_cr.FileDigester.RoundTrip.{contract_file, file_digester-contract_file}
use real_time_cr.FileDigester.Store.{find-file_digester}
use real_time_cr.FileDigester.Typed.{AreTyped, file_digester-AreTyped}

are_plain : List ℕ → Bool
are_plain [] = true
are_plain (c ∷ s) =
    let rest = are_plain s in if c == 0 || c == b'|' || c == b'\n' then false else rest

plain : (s : List ℕ) → are_plain s ≡ true → All IsPlain s
unfolding are_plain
plain [] h = tt
plain (c ∷ s) h = elim (Bool-cases (c == 0 || c == b'|' || c == b'\n')) [
  | inl bad ↦ absurd (ground arith)
  | inr good ↦ ((λ e. ground arith, λ e. ground arith, λ e. ground arith), plain s (rw good at h))
]

abbrev nifty : OmsScripInfo
nifty = record {
  expiry_date = 1198333800;
  strike_price = 0;
  token = 35001;
  board_lot_qty = 75;
  min_lot_qty = 75;
  tick_size = 5;
  custom_instrument_type = 1;
  symbol = codes "NIFTY";
  series = codes "XX";
  symbol_name = codes "NIFTY17DECFUT";
  total_traded = 0;
}

nifty-IsContract : IsContract nifty
unfolding are_plain same_text
nifty-IsContract = record {
  token = omega arith;
  expiry_date = omega arith;
  strike_price = omega arith;
  board_lot_qty = omega arith;
  min_lot_qty = omega arith;
  tick_size = omega arith;
  symbol = (omega arith, plain (codes "NIFTY") refl);
  series = (omega arith, plain (codes "XX") refl);
  symbol_name = (omega arith, plain (codes "NIFTY17DECFUT") refl);
  has_type = is_future refl refl;
  total_traded = refl;
}

file_digester-contract_file_example :
    find (file_digester (some (contract_file (codes "NEATFO 1.0") (nifty ∷ []))) []).1 35001
    ≡ some nifty
unfolding find are_plain
file_digester-contract_file_example =
    file_digester-contract_file (codes "NEATFO 1.0") (nifty ∷ []) [] 35001
      (plain (codes "NEATFO 1.0") refl) (nifty-IsContract, tt)

-- A bank, and a call with the strike price 9000; the lines are cut off.
abbrev short_file : List ℕ
short_file = codes "NEATFO 1.0\n12|||BANK|\n11|||NIFTY|||1198333800|9000|CE|"

file_digester-AreTyped_example : AreTyped (file_digester (some short_file) []).1
file_digester-AreTyped_example = file_digester-AreTyped (some short_file) [] tt

find-file_digester_example :
    find (file_digester (some short_file) []).1 11
    ≡ some (record no_scrip_info {
      token = 11;
      symbol = codes "NIFTY";
      expiry_date = 1198333800;
      strike_price = 9000;
      series = codes "CE";
      custom_instrument_type = 2;
    })
unfolding find lines contract_of columns c_string atoi same_text read_digits
find-file_digester_example = find-file_digester short_file [] 11
