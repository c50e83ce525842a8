-- ===== src/Prelude/Results.antt =====
-- Go's `(value, error)`: a value, or an error. An error is its text, but for the deadline of a
-- context, which the code tells apart by `errors.Is`.
use Prim.Native.String.{String}
use mathlib.Core.Path.{◌≡◌, refl}
use flaresolverr_go.Prelude.Text.{◌<>◌}

pub data Error : Type 0 where
  -- context.DeadlineExceeded, under the texts that wrap it (`%w`), outermost first.
  deadline_exceeded : String → Error
  failure : String → Error

abbrev pub deadline_text : String
deadline_text = "context deadline exceeded"

-- err.Error()
abbrev pub error_text : Error → String
error_text (deadline_exceeded prefix) = prefix <> deadline_text
error_text (failure text) = text

-- fmt.Errorf(prefix + "%w", err)
abbrev pub wrap : String → Error → Error
wrap prefix (deadline_exceeded inner) = deadline_exceeded (prefix <> inner)
wrap prefix (failure text) = failure (prefix <> text)

-- The value, or the error that is not nil.
pub data Result {ℓ} (Value : Type ℓ) : Type ℓ where
  ok : Value → Result Value
  err : Error → Result Value

-- if err != nil { return err }
infixl 5 ◌>>=◌
abbrev pub ◌>>=◌ {ℓ κ} :
    {Value : Type ℓ} {Next : Type κ} → Result Value → (Value → Result Next) → Result Next
(ok value) >>= next = next value
(err error) >>= next = err error

infixl 5 ◌>>◌
abbrev pub ◌>>◌ {κ} : {Next : Type κ} → Result (Unit {0}) → Result Next → Result Next
checked >> next = checked >>= λ nothing. next

pub ok-injective {ℓ} : {Value : Type ℓ} {v w : Value} → ok v ≡ ok w → v ≡ w
ok-injective same = cc

-- What a chain that succeeds says of its first step.
pub >>=-eq-ok {ℓ κ} :
    {Value : Type ℓ} {Next : Type κ} (r : Result Value) (next : Value → Result Next) {out : Next}
    → (r >>= next) ≡ ok out
    → (value : Value) × (r ≡ ok value) × (next value ≡ ok out)
>>=-eq-ok (ok value) next e = (value, refl, e)
>>=-eq-ok (err error) next e = cc
