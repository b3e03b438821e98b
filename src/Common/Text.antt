-- ===== src/Common/Text.antt =====
-- Literal strings of the source, as lists of bytes.
use Prim.Native.Char.{code}
use Prim.Native.String.{String}
use runai_model_streamer.Prelude.{ℕ, List, [], ◌∷◌}

abbrev pub Text : Type 0
Text = List ℕ

abbrev pub codes : String → Text
codes String.[] = []
codes (String.◌∷◌ c s) = code c ∷ codes s
