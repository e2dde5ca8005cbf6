-- ===== src/Gateways/Messages/Strokes.antt =====
-- A text for whole numbers, as strokes, that the parsers read back.
use Prim.Native.String.{String, [], ◌∷◌}
use Prim.Native.Char.{Char}
use lapuacore.Common.{ℕ, zero, suc, ◌≡◌, refl, ap, some}
use lapuacore.Gateways.Messages.{Text, TextLaws}

abbrev stroke : Char
stroke = "I"

abbrev pub strokes : ℕ → String
strokes zero = []
strokes (suc n) = stroke ∷ strokes n

abbrev count_strokes : String → ℕ
count_strokes [] = 0
count_strokes (c ∷ s) = suc (count_strokes s)

count_strokes-strokes : (n : ℕ) → count_strokes (strokes n) ≡ n
count_strokes-strokes zero = refl
count_strokes-strokes (suc n) = ap suc (count_strokes-strokes n)

abbrev pub text : Text ℕ
text = record {
  parse_decimal = λ s. some (count_strokes s);
  format_decimal = strokes;
  parse_int = λ s. some (count_strokes s);
  format_int = strokes;
}

pub text-TextLaws : TextLaws text
text-TextLaws = record { parse-format_decimal = λ n. ap some (count_strokes-strokes n) }
