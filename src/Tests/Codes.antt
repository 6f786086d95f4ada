-- ===== src/Tests/Codes.antt =====
-- Texts as bytes.
use Prim.Native.Char.{code}
use Prim.Native.String.{String}
use real_time_cr.Prelude.{ℕ, List, [], ◌∷◌}

-- The bytes of a text in ASCII.
abbrev pub codes : String → List ℕ
codes String.[] = []
codes (String.◌∷◌ c s) = code c ∷ codes s
