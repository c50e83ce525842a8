-- ===== src/Prelude/Text/Trim/Laws.antt =====
-- Trimming twice is trimming once.
use Prim.Native.Char.{Char, code}
use Prim.Native.String.{String, [], ◌∷◌}
use mathlib.Core.Path.{◌≡◌, refl, ◌∙◌, ap}
use mathlib.Core.Bool.{false}
use native.Mathlib.Omega.{arith}
use mathlib.Core.Logic.{inl, inr}
use flaresolverr_go.Prelude.Tests.{Bool-cases}
use flaresolverr_go.Prelude.Text.Trim.{is_space, trim_left, trim_cons, trim_right, trim}

-- The text does not begin with a space.
abbrev NoLead : String → Type 0
NoLead [] = Unit
NoLead (c ∷ s) = is_space (code c) ≡ false

trim_left-NoLead : (s : String) → NoLead (trim_left s)
unfolding trim_left
trim_left-NoLead [] = tt
trim_left-NoLead (c ∷ s) = ground (arith, trim_left-NoLead s)

trim_left_of_NoLead : (s : String) → NoLead s → trim_left s ≡ s
unfolding trim_left
trim_left_of_NoLead [] h = refl
trim_left_of_NoLead (c ∷ s) h = ground arith

trim_cons-NoLead : (c : Char) (s : String) → is_space (code c) ≡ false → NoLead (trim_cons c s)
unfolding trim_cons
trim_cons-NoLead c [] h = ground arith
trim_cons-NoLead c (d ∷ s) h = h

trim_right-NoLead : (s : String) → NoLead s → NoLead (trim_right s)
unfolding trim_right
trim_right-NoLead [] h = tt
trim_right-NoLead (c ∷ s) h = trim_cons-NoLead c (trim_right s) h

trim_right-trim_cons :
    (c : Char) (s : String) → trim_right s ≡ s → trim_right (trim_cons c s) ≡ trim_cons c s
unfolding trim_right trim_cons
trim_right-trim_cons c [] h = elim (Bool-cases (is_space (code c))) [
  | inl e ↦ rw e
  | inr e ↦ rw e (rw e)
]
trim_right-trim_cons c (d ∷ s) h = ap (trim_cons c) h

trim_right_idem : (s : String) → trim_right (trim_right s) ≡ trim_right s
unfolding trim_right
trim_right_idem [] = refl
trim_right_idem (c ∷ s) = trim_right-trim_cons c (trim_right s) (trim_right_idem s)

pub trim_idem : (s : String) → trim (trim s) ≡ trim s
unfolding trim
trim_idem s =
    ap trim_right (trim_left_of_NoLead _ (trim_right-NoLead _ (trim_left-NoLead s)))
    ∙ trim_right_idem (trim_left s)
