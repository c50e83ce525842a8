-- ===== src/Prelude/Text.antt =====
-- The functions of Go's `strings` that the program calls, over the native texts.
pub mod Trim
mod Lower
pub use Trim.{is_space}
unfoldable pub use Trim.{trim}
unfoldable pub use Lower.{to_lower, equal_fold}
use Prim.Native.String
use Prim.Native.String.{String}
use mathlib.Core.Bool.{Bool, true, false, ◌||◌}
use mathlib.Core.List.{List, [], ◌∷◌}
use text.Mathlib.Text.{◌==◌ as str_eq, starts_with}

infix 50 ◌==◌
abbrev pub ◌==◌ : String → String → Bool
s == t = str_eq s t

infixr 65 ◌<>◌
abbrev pub ◌<>◌ : String → String → String
s <> t = String.◌++◌ s t

-- One of the labels of a `case "a", "b":`.
abbrev pub is_one_of : String → List String → Bool
is_one_of s [] = false
is_one_of s (t ∷ ts) = s == t || is_one_of s ts

abbrev pub has_prefix : String → String → Bool
has_prefix s t = starts_with s t

-- strings.Contains
abbrev pub contains : String → String → Bool
contains String.[] t = starts_with "" t
contains (String.◌∷◌ c s) t = starts_with (String.◌∷◌ c s) t || contains s t

-- strings.Join
abbrev pub join : List String → String → String
join [] sep = ""
join (s ∷ []) sep = s
join (s ∷ t ∷ ts) sep = s <> (sep <> join (t ∷ ts) sep)
