-- ===== src/Challenge/Solve/GivingUp.antt =====
-- server/browser/geckodriver/browser.go: when the Firefox backend gives up.
use flaresolverr_go.Prelude.{
  ◌∷◌, ℕ, zero, suc, ◌+◌, ◌≤◌, Bool, true, false, not, ◌<>◌, ◌≡◌, refl, sym, subst, arith, ap, ◌∙◌,
  ok-injective, if◌then◌else◌, failure, Result, ok, err,
}
use flaresolverr_go.Prelude.Acts.{after, ◌>>◌, skip}
use flaresolverr_go.Service.Format.{show_ℕ}
use flaresolverr_go.Challenge.{sleep, Trace, Drive, Tab, pause, tried, challenge_present}
use flaresolverr_go.Challenge.Solve.Tally.{
  seconds, frame_queries, Tally, Tally-weaker, second-Tally, look-Tally, wiggled-Tally,
  clicked-Tally,
}
use flaresolverr_go.Challenge.Targets.{Floats}
use flaresolverr_go.Challenge.Solve.{
  gecko_max_attempts, gecko_mouse_wiggle, gecko_round, gecko_loop, gecko_solve_challenge, clicks_at,
  wiggles_at, click_turnstile_checkbox,
}

-- Code after a step that has a result.
after-ok :
    {S A B : Type 0} (x : Result A × S) (f : A → S → Result B × S) (a : A)
    → x.0 ≡ ok a
    → after x f ≡ f a x.1
after-ok (ok b, s) f a e = ap (λ c. f c s) (ok-injective e)
after-ok (err b, s) f a e = cc

module _ (F : Floats) (p : Tab (F.Float)) where
  -- The clicks after the attempts that are left.
  clicks_after : ℕ → ℕ → ℕ → ℕ
  clicks_after zero attempts clicks = clicks
  clicks_after (suc left) attempts clicks =
      clicks_after left (attempts + 1) (if clicks_at attempts then clicks + 1 else clicks)

  abbrev gives_up : ℕ → Result (Unit {0})
  gives_up clicks = err (
      failure (
        "cloudflare challenge did not clear within "
        <> (show_ℕ gecko_max_attempts
            <> (" seconds (" <> (show_ℕ clicks <> " checkbox click attempts)")))))

  quiet :
      {A : Type 0} (b : Bool) (m : Drive A) (t : Trace)
      → ((if b then tried m else skip) t).0 ≡ ok tt
  quiet true m t = refl
  quiet false m t = refl

  -- What is done to a challenge that stays.
  abbrev clicking : ℕ → Drive (Unit {0})
  clicking attempts = if clicks_at attempts then tried (click_turnstile_checkbox F p) else skip

  abbrev wiggling : ℕ → Drive (Unit {0})
  wiggling attempts = if wiggles_at attempts then tried (gecko_mouse_wiggle F p) else skip

  acts :
      (attempts : ℕ) (t : Trace)
      → (clicking attempts >> wiggling attempts) t ≡ wiggling attempts (clicking attempts t).1
  acts attempts t =
      after-ok (clicking attempts t) (λ _. wiggling attempts) tt
        (quiet (clicks_at attempts) (click_turnstile_checkbox F p) t)

  acts-Tally :
      (attempts a k : ℕ) (t : Trace)
      → Tally a k t
      → Tally a
          (if clicks_at attempts then k + 1 else k)
          ((clicking attempts >> wiggling attempts) t).1
  acts-Tally attempts a k t h =
      subst (λ x. Tally a (if clicks_at attempts then k + 1 else k) x.1) (sym (acts attempts t))
        (wiggled-Tally F p a (if clicks_at attempts then k + 1 else k) (wiggles_at attempts)
          (clicking attempts t).1 (clicked-Tally F p a k (clicks_at attempts) t h))

  acted : (attempts : ℕ) (t : Trace) → ((clicking attempts >> wiggling attempts) t).0 ≡ ok tt
  acted attempts t =
      ap (λ x. x.0) (acts attempts t)
      ∙ quiet (wiggles_at attempts) (gecko_mouse_wiggle F p) (clicking attempts t).1

  here : (t : Trace) → Tally (seconds t) (frame_queries t + 0) t
  unfolding Tally
  here t = (ground arith, ground arith)

  module _ (waits : (t : Trace) (d : ℕ) → p.sleep t d ≡ ok tt)
      (stays : (t : Trace) → (challenge_present F p t).0 ≡ ok true) where
    -- The trace after the wait and the look of an attempt.
    abbrev looked : Trace → Trace
    looked t = (challenge_present F p (sleep 1000 ∷ t)).1

    looks :
        (t : Trace)
        → (pause F p 1000 >> challenge_present F p) t ≡ challenge_present F p (sleep 1000 ∷ t)
    looks t = after-ok (pause F p 1000 t) (λ _. challenge_present F p) tt (waits t 1000)

    -- One attempt, and the rest of the loop.
    step :
        (left attempts clicks : ℕ) (t : Trace)
        → gecko_loop F p (suc left) attempts clicks t
          ≡ gecko_loop F p left
              (attempts + 1)
              (if clicks_at attempts then clicks + 1 else clicks)
              ((clicking attempts >> wiggling attempts) (looked t)).1
    unfolding gecko_loop gecko_round
    step left attempts clicks t =
        let next =
          gecko_loop F p left (attempts + 1) (if clicks_at attempts then clicks + 1 else clicks) in
        let both = clicking attempts >> wiggling attempts in
        ap (λ x. after x (λ found. if not found then skip else (both >> next))) (looks t)
        ∙ (after-ok (challenge_present F p (sleep 1000 ∷ t))
              (λ found. if not found then skip else (both >> next)) true (stays (sleep 1000 ∷ t))
            ∙ after-ok (both (looked t)) (λ _. next) tt (acted attempts (looked t)))

    loop-gives_up :
        (left attempts clicks : ℕ) (t : Trace)
        → (gecko_loop F p left attempts clicks t).0 ≡ gives_up (clicks_after left attempts clicks)
    unfolding gecko_loop clicks_after
    loop-gives_up zero attempts clicks t = refl
    loop-gives_up (suc left) attempts clicks t =
        ap (λ x. x.0) (step left attempts clicks t)
        ∙ loop-gives_up left (attempts + 1) (if clicks_at attempts then clicks + 1 else clicks)
            ((clicking attempts >> wiggling attempts) (looked t)).1

    loop-Tally :
        (left attempts clicks a k : ℕ) (t : Trace)
        → Tally a (k + clicks) t
        → Tally
            (a + left)
            (k + clicks_after left attempts clicks)
            (gecko_loop F p left attempts clicks t).1
    unfolding gecko_loop clicks_after
    loop-Tally zero attempts clicks a k t h =
        Tally-weaker a (a + 0) (k + clicks) (k + clicks) t (ground arith) (ground arith) h
    loop-Tally (suc left) attempts clicks a k t h =
        let more = if clicks_at attempts then clicks + 1 else clicks in
        let now = (clicking attempts >> wiggling attempts) (looked t) in
        let seen = acts-Tally attempts (a + 1) (k + clicks) (looked t) (
          look-Tally F p (a + 1) (k + clicks) (sleep 1000 ∷ t)
            (second-Tally F p a (k + clicks) t h)) in
        let all = clicks_after left (attempts + 1) more in
        subst (λ x. Tally (a + suc left) (k + all) x.1) (sym (step left attempts clicks t))
          (Tally-weaker (a + 1 + left) (a + suc left) (k + all) (k + all)
            (gecko_loop F p left (attempts + 1) more now.1).1 (ground arith) (ground arith)
            (loop-Tally left (attempts + 1) more (a + 1) k now.1 (
              Tally-weaker (a + 1) (a + 1)
                (if clicks_at attempts then k + clicks + 1 else k + clicks) (k + more) now.1
                (ground arith) (ground arith) seen)))

    solve-Tally :
        (t : Trace)
        → ((gecko_solve_challenge F p t).0 ≡ gives_up (clicks_after 30 0 0))
          × Tally
              (seconds t + 30)
              (frame_queries t + clicks_after 30 0 0)
              (gecko_solve_challenge F p t).1
    unfolding gecko_solve_challenge
    solve-Tally t =
        let moved = (tried (gecko_mouse_wiggle F p) t).1 in
        let start =
          after-ok (tried (gecko_mouse_wiggle F p) t) (λ _. gecko_loop F p 30 0 0) tt refl in
        (
          ap (λ x. x.0) start ∙ loop-gives_up 30 0 0 moved,
          subst (λ x. Tally (seconds t + 30) (frame_queries t + clicks_after 30 0 0) x.1)
              (sym start)
              (loop-Tally 30 0 0 (seconds t) (frame_queries t) moved
                (wiggled-Tally F p (seconds t) (frame_queries t + 0) true t (here t))),
        )

    -- On a challenge that stays on the page, with a context that does not end, solveChallenge of the
    -- Firefox backend gives up with an error after at least 30 waits of a second, that is, 30
    -- attempts, and 5 searches for the frame of the checkbox, with which a click on it begins; and
    -- the error counts them. This is so whatever the clicks and the movements of the mouse answer.
    pub gecko_gives_up :
        (t : Trace)
        → ((gecko_solve_challenge F p t).0
            ≡ err (
                failure
                  "cloudflare challenge did not clear within 30 seconds (5 checkbox click attempts)"))
          × (seconds t + 30 ≤ seconds (gecko_solve_challenge F p t).1)
          × (frame_queries t + 5 ≤ frame_queries (gecko_solve_challenge F p t).1)
    unfolding clicks_after show_ℕ Tally
    gecko_gives_up t = let (e, h) = solve-Tally t in (e, h.0, h.1)
