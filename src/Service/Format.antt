-- ===== src/Service/Format.antt =====
-- server/service.go: the texts of errors.
use Prim.Native.Char.{code}
use Prim.Native.String.{String, [], ◌∷◌}
use flaresolverr_go.Prelude.{ℕ, zero, suc, ◌/◌, ◌%◌, Error, failure}
use flaresolverr_go.Prelude.{if◌then◌else◌, eqb, ltb, ◌<>◌}
use flaresolverr_go.Prelude.Int.{ℤ, pos, negsuc, leb_ℤ, ◌+ℤ◌, wrap64, scale}

-- strings.NewReplacer("\n", "\\n", "\r", "")
unfoldable pub strings_replace : String → String
strings_replace [] = []
strings_replace (c ∷ s) =
    let rest = strings_replace s in
    if eqb (code c) 10 then "\\n" <> rest else if eqb (code c) 13 then rest else c ∷ rest

digit : ℕ → String
digit n =
    if eqb n 0
    then "0"
    else if eqb n 1
    then "1"
    else if eqb n 2
    then "2"
    else if eqb n 3
    then "3"
    else if eqb n 4
    then "4"
    else if eqb n 5
    then "5"
    else if eqb n 6
    then "6"
    else if eqb n 7
    then "7"
    else if eqb n 8
    then "8"
    else "9"

-- The digits of a number below 10 ^ fuel, in front of `s`.
digits_before : ℕ → ℕ → String → String
unfolding digit
digits_before zero n s = s
digits_before (suc fuel) n s =
    let rest = digits_before fuel (n / 10) (digit (n % 10) <> s) in
    if ltb n 10 then digit n <> s else rest

-- An int64 has at most 19 digits.
unfoldable pub show_ℕ : ℕ → String
unfolding digits_before
show_ℕ n = digits_before 19 n ""

-- The decimals of n thousandths, n < 1000, without the zeros at the end.
decimals : ℕ → String
unfolding digit
decimals n =
    if eqb n 0
    then ""
    else if eqb (n % 100) 0
    then "." <> digit (n / 100)
    else if eqb (n % 10) 0
    then "." <> (digit (n / 100) <> digit (n / 10 % 10))
    else "." <> (digit (n / 100) <> (digit (n / 10 % 10) <> digit (n % 10)))

show_thousandths : ℕ → String
unfolding show_ℕ decimals
show_thousandths n = show_ℕ (n / 1000) <> decimals (n % 1000)

unfoldable pub format_timeout_seconds : ℤ → String
unfolding show_thousandths
format_timeout_seconds (pos zero) = show_thousandths 1
format_timeout_seconds (pos (suc n)) = show_thousandths (suc n)
format_timeout_seconds (negsuc n) = show_thousandths 1

-- time.Duration(ms) * time.Millisecond
unfoldable pub budget : ℤ → ℤ
budget ms = wrap64 (scale ms 1000000)

abbrev pub timeout_slack : ℤ
timeout_slack = pos 2000000000

-- The maxTimeout has run out, or all but the slack of it.
unfoldable pub is_budget_spent : ℤ → ℤ → Error → Error → Error
is_budget_spent ms elapsed spent unspent =
    if leb_ℤ (budget ms) (wrap64 (elapsed +ℤ timeout_slack)) then spent else unspent

module _ (format_elapsed_seconds : ℤ → String) where
  unfoldable pub resolve_timeout_error : ℤ → ℤ → Error
  unfolding is_budget_spent
  resolve_timeout_error ms elapsed =
      is_budget_spent ms elapsed
        (failure (
          "Error solving the challenge. Timeout after "
          <> (format_timeout_seconds ms <> " seconds.")))
        (failure (
          "Error solving the challenge. The browser stopped responding after "
          <> (format_elapsed_seconds elapsed
              <> (" seconds, well inside the "
                  <> (format_timeout_seconds ms <> "-second maxTimeout.")))))
