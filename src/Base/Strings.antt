-- ===== src/Base/Strings.antt =====
-- Texts that are only compared, joined or shown: the native `String`.
use Prim.Native.Nat.{ℕ}
use Prim.Native.Char.{code}
use Prim.Native.String.{String}
use mathlib.Core.List.{List, [], ◌∷◌}
use text.Mathlib.Text
use text.Mathlib.TextEquality.{eq_iff}
use soulvpn.Base.Maps.{Eq}

instance abbrev pub text_eq : Eq String
text_eq = record { beq = Text.◌==◌; beq_iff = eq_iff }

-- The characters of a text, for functions that walk over them.
abbrev pub codes : String → List ℕ
codes String.[] = []
codes (String.◌∷◌ c s) = code c ∷ codes s
