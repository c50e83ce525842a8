-- ===== src/Pipeline/Answers.antt =====
-- server/browser/resolve.go: the message and the errors of the pipeline.
use flaresolverr_go.Prelude.{
  ℕ, String, Bool, true, false, [], ◌≡◌, ◌≢◌, ◌⊎◌, inl, inr, refl, any, arith, ok, subst,
}
use flaresolverr_go.Service.Types.{Solution, BrowserRequest}
use flaresolverr_go.Pipeline.{
  Call, Trace, Page, resolve_page, clear_challenge, clear_if, challenge_present, solve_challenge,
}
use flaresolverr_go.Prelude.Acts.Triples.{Leaves, Triple, bind}
use flaresolverr_go.Pipeline.Triples.{called}
use flaresolverr_go.Pipeline.Stages.{
  phase, Stepping, load-Keeps, check-Keeps, settle-Keeps, snapshot-Keeps, response-Keeps,
  screenshot-Keeps,
}

abbrev pub is_solving : Call → Bool
is_solving solve_challenge = true
is_solving c = false

-- The trace has a call that solves the challenge, or has none.
Solving : Bool → Trace → Type 0
Solving b t = any is_solving t ≡ b

abbrev Anything : Trace → Type 0
Anything t = Unit

not_solving : (n : ℕ) → n ≢ 2 → (c : Call) → phase c ≡ n → is_solving c ≡ false
not_solving n h c e = ground (arith, h)

neutral : (n : ℕ) → n ≢ 2 → (b : Bool) → Stepping (Solving b) n
unfolding Solving
neutral n h b c e t i = ground (arith, not_solving n h c e, i)

-- The two messages, and whether the challenge was solved.
abbrev pub IsMessage : String → Bool → Type 0
IsMessage message solved =
    ((message ≡ "Challenge solved!") × (solved ≡ true))
    ⊎ ((message ≡ "Challenge not detected!") × (solved ≡ false))

Said : String → Trace → Type 0
Said message t = IsMessage message (any is_solving t)

clear-Said : (p : Page) → Triple (Solving false) (clear_challenge p) Said Anything
unfolding clear_challenge clear_if Solving Said
clear-Said p =
    bind
      (called {Q = λ b. Solving false} challenge_present "detect challenge: " p.challenge_present
        (λ t i. (λ a. i, tt)))
      go
  where
    go : (b : Bool) → Triple (Solving false) (clear_if p b) Said Anything
    go false = record { holds = λ t i. inr (refl, i) }
    go true =
        bind {Q = λ a. Solving true}
          (called solve_challenge "solve challenge: " p.solve_challenge (λ t i. (λ a. refl, tt)))
          (λ a. record { holds = λ t i. inl (refl, i) })

Said-neutral : (n : ℕ) → n ≢ 2 → (message : String) → Stepping (Said message) n
unfolding Said
Said-neutral n h message c e t i = ground (arith, not_solving n h c e, i)

resolve-Said :
    (p : Page) (req : BrowserRequest)
    → Triple (Solving false) (resolve_page p req) (λ r. Said r.1) Anything
unfolding resolve_page
resolve-Said p req =
    bind
      (bind
        (bind
          (load-Keeps p (Solving false) Anything (λ t i. tt) (neutral 0 (ground arith) false) req)
          (λ _.
            check-Keeps p (Solving false) Anything (λ t i. tt) (neutral 1 (ground arith) false)))
        (λ _. clear-Said p))
      (λ message.
        bind
          (bind
            (settle-Keeps p (Said message) Anything (λ t i. tt)
              (Said-neutral 3 (ground arith) message) req)
            (λ _.
              bind
                (bind
                  (snapshot-Keeps p (Said message) Anything (λ t i. tt)
                    (Said-neutral 4 (ground arith) message))
                  (response-Keeps p (Said message) Anything (λ t i. tt)
                    (Said-neutral 4 (ground arith) message) req))
                (screenshot-Keeps p (Said message) Anything (λ t i. tt)
                  (Said-neutral 4 (ground arith) message) req)))
          (λ result. record { holds = λ t h. h }))

-- The message of a result is "Challenge solved!" where the challenge was solved, and "Challenge not
-- detected!" where no call to solve it was made.
pub resolve_page-IsMessage :
    (p : Page) (req : BrowserRequest) (solution : Solution) (message : String) (t : Trace)
    → resolve_page p req [] ≡ (ok (solution, message), t)
    → IsMessage message (any is_solving t)
unfolding Solving Said
resolve_page-IsMessage p req solution message t e =
    subst (Leaves (λ r. Said r.1) Anything) e ((resolve-Said p req).holds [] refl)
