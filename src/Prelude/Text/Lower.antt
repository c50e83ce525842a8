-- ===== src/Prelude/Text/Lower.antt =====
-- strings.ToLower and strings.EqualFold. The program compares their results with ASCII texts, or
-- two host names with one another: every character that is mapped to an ASCII one is mapped, and
-- any other character outside ASCII stays as it is.
use Prim.Native.Char.{Char, code}
use Prim.Native.String.{String, [], ◌∷◌}
use mathlib.Core.Bool.{Bool}
use text.Mathlib.Text.{◌==◌ as str_eq}
use flaresolverr_go.Prelude.Tests.{eqb, if◌then◌else◌}

-- The character of the second text that stands where `c` stands in the first one.
abbrev translate : String → String → Char → Char
translate [] _ c = c
translate (_ ∷ _) [] c = c
translate (from ∷ froms) (to ∷ tos) c =
    if eqb (code c) (code from) then to else translate froms tos c

-- A to Z, the Kelvin sign and the dotted capital I.
lower_char : Char → Char
lower_char c = translate "ABCDEFGHIJKLMNOPQRSTUVWXYZKİ" "abcdefghijklmnopqrstuvwxyzki" c

unfoldable pub to_lower : String → String
unfolding lower_char
to_lower [] = []
to_lower (c ∷ s) = lower_char c ∷ to_lower s

-- A to Z, the Kelvin sign and the long s.
fold_char : Char → Char
fold_char c = translate "ABCDEFGHIJKLMNOPQRSTUVWXYZKſ" "abcdefghijklmnopqrstuvwxyzks" c

fold : String → String
unfolding fold_char
fold [] = []
fold (c ∷ s) = fold_char c ∷ fold s

unfoldable pub equal_fold : String → String → Bool
unfolding fold
equal_fold s t = str_eq (fold s) (fold t)
