-- ===== src/Pipeline/Order.antt =====
-- server/browser/resolve.go: the order of the calls on a page.
use flaresolverr_go.Prelude.{ℕ, ◌≤◌, [], ◌∷◌, All, arith, Result, ok, err, subst, sym}
use flaresolverr_go.Service.Types.{BrowserRequest}
use flaresolverr_go.Pipeline.{Trace, Page, Run, resolve_page}
use flaresolverr_go.Prelude.Acts.Triples.{Leaves, Triple, bind}
use flaresolverr_go.Pipeline.Stages.{
  phase, Stepping, load-Keeps, check-Keeps, clear-Keeps, settle-Keeps, snapshot-Keeps,
  response-Keeps, screenshot-Keeps,
}

-- No call is made after one of a later phase.
pub Ordered : Trace → Type 0
Ordered [] = Unit
Ordered (c ∷ t) = All (λ d. phase d ≤ phase c) t × Ordered t

Upto : ℕ → Trace → Type 0
Upto n t = All (λ d. phase d ≤ n) t × Ordered t

weaken : (n k : ℕ) (t : Trace) → n ≤ k → All (λ d. phase d ≤ n) t → All (λ d. phase d ≤ k) t
weaken n k [] h a = tt
weaken n k (d ∷ t) h a = (ground (arith, a.0), weaken n k t h a.1)

Upto-Ordered : (n : ℕ) (t : Trace) → Upto n t → Ordered t
unfolding Upto
Upto-Ordered n t h = h.1

extend : (n : ℕ) → Stepping (Upto n) n
unfolding Upto Ordered
extend n c e t p =
    ((ground (arith, e), p.0), (subst (λ k. All (λ d. phase d ≤ k) t) (sym e) p.0, p.1))

abbrev Goes : {A : Type 0} → ℕ → Run A → ℕ → Type 0
Goes {A} n m k = Triple (Upto n) m (λ (a : A). Upto k) Ordered

later : {A : Type 0} {n k : ℕ} (j : ℕ) {m : Run A} → n ≤ k → Goes k m j → Goes n m j
unfolding Upto
later {n} {k} j h g = record { holds = λ t p. g.holds t (weaken n k t h p.0, p.1) }

resolve-Goes : (p : Page) (req : BrowserRequest) → Goes 0 (resolve_page p req) 4
unfolding resolve_page
resolve-Goes p req =
    bind
      (bind
        (bind (load-Keeps p (Upto 0) Ordered (Upto-Ordered 0) (extend 0) req) (λ _.
          later 1 (ground arith) (check-Keeps p (Upto 1) Ordered (Upto-Ordered 1) (extend 1))))
        (λ _. later 2 (ground arith) (clear-Keeps p (Upto 2) Ordered (Upto-Ordered 2) (extend 2))))
      (λ message.
        bind
          (bind
            (later 3 (ground arith)
              (settle-Keeps p (Upto 3) Ordered (Upto-Ordered 3) (extend 3) req))
            (λ _. later 4 (ground arith) (
              bind
                (bind (snapshot-Keeps p (Upto 4) Ordered (Upto-Ordered 4) (extend 4))
                  (response-Keeps p (Upto 4) Ordered (Upto-Ordered 4) (extend 4) req))
                (screenshot-Keeps p (Upto 4) Ordered (Upto-Ordered 4) (extend 4) req))))
          (λ result. record { holds = λ t h. h }))

ended : {A : Type 0} (x : Result A × Trace) → Leaves (λ (a : A). Upto 4) Ordered x → Ordered x.1
ended (ok a, t) h = Upto-Ordered 4 t h
ended (err e, t) h = h

-- Whatever the page answers, and also where the pipeline stops with an error, its calls come in
-- the order of the phases: the page is loaded, tested for a ban, its challenge is solved, the
-- pauses follow, and only then is anything of the result read.
pub resolve_page-Ordered : (p : Page) (req : BrowserRequest) → Ordered (resolve_page p req []).1
unfolding Upto Ordered
resolve_page-Ordered p req = ended (resolve_page p req []) ((resolve-Goes p req).holds [] (tt, tt))
