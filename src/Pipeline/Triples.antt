-- ===== src/Pipeline/Triples.antt =====
-- What a call of server/browser/resolve.go on the page leaves, as a triple.
use flaresolverr_go.Prelude.{String, ◌∷◌, Result, ok, err}
use flaresolverr_go.Prelude.Acts.{explained}
use flaresolverr_go.Prelude.Acts.Triples.{Leaves, Triple}
use flaresolverr_go.Pipeline.{Call, Trace, call}

explained-Leaves :
    {A : Type 0} (Q : A → Trace → Type 0) (E : Trace → Type 0) (prefix : String) (x : Result A)
    (t : Trace)
    → ((a : A) → Q a t)
    → E t
    → Leaves Q E (explained prefix x, t)
explained-Leaves Q E prefix (ok a) t q e = q a
explained-Leaves Q E prefix (err x) t q e = e

-- A call, of which only its place in the trace is used.
pub called :
    {A : Type 0} {P : Trace → Type 0} {Q : A → Trace → Type 0} {E : Trace → Type 0} (c : Call)
    (prefix : String) (answer : Trace → Result A)
    → ((t : Trace) → P t → ((a : A) → Q a (c ∷ t)) × E (c ∷ t))
    → Triple P (call c prefix answer) Q E
called {Q} {E} c prefix answer h = record {
  holds = λ t p. explained-Leaves Q E prefix (answer t) (c ∷ t) (h t p).0 (h t p).1;
}
