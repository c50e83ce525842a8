-- ===== src/Prelude/Acts/Triples.antt =====
-- What code that changes a state leaves, as a triple.
use flaresolverr_go.Prelude.Tests.{if◌then◌else◌}
use flaresolverr_go.Prelude.Results.{Result, ok, err, Error}
use flaresolverr_go.Prelude.Acts.{Act, after, ◌>>=◌, done, fail, reads, demand, explained, attempt}
use Prim.Native.String.{String}
use mathlib.Core.Bool.{Bool, true, false}
use mathlib.Core.Path.{◌≡◌, refl}

-- Q of a result and the state after it, and E of the state that an error leaves.
abbrev pub Leaves : {S A : Type 0} → (A → S → Type 0) → (S → Type 0) → Result A × S → Type 0
Leaves Q E (ok a, s) = Q a s
Leaves Q E (err e, s) = E s

pub record Triple {S A : Type 0} (P : S → Type 0) (m : Act S A) (Q : A → S → Type 0)
    (E : S → Type 0) : Type 0 where
  pub holds : (s : S) → P s → Leaves Q E (m s)

after-Leaves :
    {S A B : Type 0} (Q : A → S → Type 0) (R : B → S → Type 0) (E : S → Type 0) (x : Result A × S)
    (f : A → Act S B)
    → Leaves Q E x
    → ((a : A) → Triple (Q a) (f a) R E)
    → Leaves R E (after x f)
after-Leaves Q R E (ok a, s) f h k = (k a).holds s h
after-Leaves Q R E (err e, s) f h k = h

pub bind :
    {S A B : Type 0} {P : S → Type 0} {Q : A → S → Type 0} {R : B → S → Type 0} {E : S → Type 0}
    {m : Act S A} {f : A → Act S B}
    → Triple P m Q E
    → ((a : A) → Triple (Q a) (f a) R E)
    → Triple P (m >>= f) R E
bind {Q} {R} {E} {m} {f} h k = record { holds = λ s p. after-Leaves Q R E (m s) f (h.holds s p) k }

pub choice :
    {S A : Type 0} {P : S → Type 0} {Q : A → S → Type 0} {E : S → Type 0} (b : Bool) {m k : Act S A}
    → Triple P m Q E
    → Triple P k Q E
    → Triple P (if b then m else k) Q E
choice true h j = h
choice false h j = j

-- The same, where the test is known in each branch.
pub branch :
    {S A : Type 0} {P : S → Type 0} {Q : A → S → Type 0} {E : S → Type 0} (b : Bool) {m k : Act S A}
    → (b ≡ true → Triple P m Q E)
    → (b ≡ false → Triple P k Q E)
    → Triple P (if b then m else k) Q E
branch true h j = h refl
branch false h j = j refl

pub returned :
    {S A : Type 0} {P : S → Type 0} {Q : A → S → Type 0} {E : S → Type 0} (a : A)
    → ((s : S) → P s → Q a s)
    → Triple P (done a) Q E
returned a h = record { holds = h }

pub refused :
    {S A : Type 0} {P : S → Type 0} {Q : A → S → Type 0} {E : S → Type 0} (e : Error)
    → ((s : S) → P s → E s)
    → Triple P (fail {A = A} e) Q E
refused e h = record { holds = h }

-- A result that is read from the state, with what it was read from.
pub read :
    {S A : Type 0} {P : S → Type 0} {E : S → Type 0} (f : S → Result A)
    → ((s : S) → P s → E s)
    → Triple P (reads f) (λ a s. P s × (f s ≡ ok a)) E
read {S} {A} {P} {E} f h = record { holds = λ s p. outcome s p (f s) refl }
  where
    outcome :
        (s : S) (p : P s) (r : Result A) → f s ≡ r → Leaves (λ a t. P t × (f t ≡ ok a)) E (r, s)
    outcome s p (ok a) e = (p, e)
    outcome s p (err x) e = h s p

pub demanded :
    {S : Type 0} {P : S → Type 0} {E : S → Type 0} (b : Bool) (e : Error)
    → ((s : S) → P s → E s)
    → Triple P (demand b e) (λ _ s. P s × (b ≡ true)) E
demanded true e h = record { holds = λ s p. (p, refl) }
demanded false e h = record { holds = h }

-- Code that runs under a weaker condition.
pub given :
    {S A : Type 0} {P P' : S → Type 0} {Q : A → S → Type 0} {E : S → Type 0} {m : Act S A}
    → ((s : S) → P s → P' s)
    → Triple P' m Q E
    → Triple P m Q E
given weaker h = record { holds = λ s p. h.holds s (weaker s p) }

-- What holds of the state after code, whether it fails or not.
pub both : {S A : Type 0} (P : S → Type 0) (x : Result A × S) → P x.1 → Leaves (λ _. P) P x
both P (ok a, s) h = h
both P (err e, s) h = h

pub kept :
    {S A : Type 0} {P : S → Type 0} {m : Act S A}
    → ((s : S) → P s → P (m s).1)
    → Triple P m (λ _. P) P
kept {P} {m} h = record { holds = λ s p. both P (m s) (h s p) }

-- A fact beside the condition on the state.
pub assuming :
    {S A X : Type 0} {P : S → Type 0} {Q : A → S → Type 0} {E : S → Type 0} {m : Act S A}
    → (X → Triple P m Q E)
    → Triple (λ s. P s × X) m Q E
assuming h = record { holds = λ s p. (h p.1).holds s p.0 }

-- A result that is used for less.
pub leaves_weaker :
    {S A : Type 0} (Q Q' : A → S → Type 0) (E : S → Type 0) (x : Result A × S)
    → ((a : A) (s : S) → Q a s → Q' a s)
    → Leaves Q E x
    → Leaves Q' E x
leaves_weaker Q Q' E (ok a, s) f h = f a s h
leaves_weaker Q Q' E (err e, s) f h = h

pub weaker :
    {S A : Type 0} {P : S → Type 0} {Q Q' : A → S → Type 0} {E : S → Type 0} {m : Act S A}
    → ((a : A) (s : S) → Q a s → Q' a s)
    → Triple P m Q E
    → Triple P m Q' E
weaker {Q} {Q'} {E} {m} f h = record { holds = λ s p. leaves_weaker Q Q' E (m s) f (h.holds s p) }

pub explained-eq-ok :
    {A : Type 0} (prefix : String) (r : Result A) {a : A} → explained prefix r ≡ ok a → r ≡ ok a
explained-eq-ok prefix (ok a) e = e
explained-eq-ok prefix (err x) e = cc

pub attempted :
    {S A : Type 0} {P : S → Type 0} {m : Act S A}
    → Triple P m (λ _. P) P
    → Triple P (attempt m) (λ _. P) P
attempted {S} {A} {P} {m} h = record { holds = λ s p. from (m s) (h.holds s p) }
  where
    from : (x : Result A × S) → Leaves (λ _. P) P x → P x.1
    from (ok a, s) h = h
    from (err e, s) h = h

-- Code of which nothing is used.
pub whatever :
    {S A B : Type 0} {R : B → S → Type 0} (m : Act S A) {f : A → Act S B}
    → ((a : A) → Triple (λ _. Unit) (f a) R (λ _. Unit))
    → Triple (λ _. Unit) (m >>= f) R (λ _. Unit)
whatever m h = bind {Q = λ _ _. Unit} {m = m} (kept λ s _. tt) h

-- The state that an error leaves is not used.
forget_error :
    {S A : Type 0} (Q : A → S → Type 0) (E : S → Type 0) (x : Result A × S)
    → Leaves Q E x
    → Leaves Q (λ _. Unit {0}) x
forget_error Q E (ok a, s) h = h
forget_error Q E (err e, s) h = tt

pub unless_error :
    {S A : Type 0} {P : S → Type 0} {Q : A → S → Type 0} {E : S → Type 0} {m : Act S A}
    → Triple P m Q E
    → Triple P m Q (λ _. Unit)
unless_error {Q} {E} {m} h = record { holds = λ s p. forget_error Q E (m s) (h.holds s p) }

-- Code that never fails.
safe :
    {S A : Type 0} (Q : A → S → Type 0) (E : S → Type 0) (x : Result A × S)
    → Leaves Q (λ _. ⊥) x
    → Leaves Q E x
safe Q E (ok a, s) h = h
safe Q E (err e, s) h = absurd h

pub unfailing :
    {S A : Type 0} {P : S → Type 0} {Q : A → S → Type 0} {E : S → Type 0} {m : Act S A}
    → Triple P m Q (λ _. ⊥)
    → Triple P m Q E
unfailing {Q} {E} {m} h = record { holds = λ s p. safe Q E (m s) (h.holds s p) }
