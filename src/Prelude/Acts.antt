-- ===== src/Prelude/Acts.antt =====
-- Go code that changes a state and returns `(value, error)`: from the state, the result and the
-- state after it. The state that an error leaves is kept.
pub mod Triples
use flaresolverr_go.Prelude.Tests.{if◌then◌else◌}
use flaresolverr_go.Prelude.Results.{Error, wrap, Result, ok, err}
use mathlib.Core.Bool.{Bool, true, false}
use Prim.Native.String.{String}

abbrev pub Act : Type 0 → Type 0 → Type 0
Act S A = S → Result A × S

abbrev pub after : {S A B : Type 0} → Result A × S → (A → Act S B) → Result B × S
after (ok a, s) f = f a s
after (err e, s) f = (err e, s)

infixl 5 ◌>>=◌ ◌>>◌
abbrev pub ◌>>=◌ : {S A B : Type 0} → Act S A → (A → Act S B) → Act S B
m >>= f = λ s. after (m s) f

abbrev pub ◌>>◌ : {S A B : Type 0} → Act S A → Act S B → Act S B
m >> k = m >>= λ _. k

abbrev pub done : {S A : Type 0} → A → Act S A
done a = λ s. (ok a, s)

abbrev pub fail : {S A : Type 0} → Error → Act S A
fail e = λ s. (err e, s)

abbrev pub skip : {S : Type 0} → Act S (Unit {0})
skip = done tt

-- A result that is read from the state.
abbrev pub reads : {S A : Type 0} → (S → Result A) → Act S A
reads f = λ s. (f s, s)

-- return fmt.Errorf(prefix + "%w", err)
abbrev pub explained : {A : Type 0} → String → Result A → Result A
explained prefix (ok a) = ok a
explained prefix (err e) = err (wrap prefix e)

-- if !test { return error }
abbrev pub demand : {S : Type 0} → Bool → Error → Act S (Unit {0})
demand true e = skip
demand false e = fail e

-- The result itself, whether it is an error or not.
abbrev pub attempt : {S A : Type 0} → Act S A → Act S (Result A)
attempt m = λ s. (ok (m s).0, (m s).1)

-- The same of code that changes the state.
abbrev pub explaining : {S A : Type 0} → String → Act S A → Act S A
explaining prefix m = λ s. (explained prefix (m s).0, (m s).1)
