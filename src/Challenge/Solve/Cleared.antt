-- ===== src/Challenge/Solve/Cleared.antt =====
-- server/browser/{webdriver,chromedp,geckodriver}/browser.go: a challenge counts as solved only when
-- it was just seen to be gone.
use flaresolverr_go.Prelude.{
  ◌+◌, ◌<>◌, leb, failure, ℕ, zero, suc, Bool, true, false, not, ◌&&◌, Option, none, some, List,
  ◌≡◌, refl, ap, ◌∙◌, arith, if◌then◌else◌, if_cases, Result, ok, err,
}
use flaresolverr_go.Prelude.Int.{pos}
use flaresolverr_go.Prelude.Acts.{◌>>=◌, ◌>>◌, skip, attempt}
use flaresolverr_go.Prelude.Acts.Triples.{Leaves, Triple, bind, branch, returned, refused, whatever}
use flaresolverr_go.Service.Format.{show_ℕ}
use flaresolverr_go.Challenge.{
  Trace, Drive, Tab, pause, tried, challenge_present, gone_within, wait_challenge_gone,
  click_targets, debug_challenge_state,
}
use flaresolverr_go.Challenge.Targets.{
  Floats, Target, challenge_auto_wait_duration, relevant_challenge_targets,
  fallback_challenge_targets,
}
use flaresolverr_go.Challenge.Clicks.{webdriver_click_verify, chromedp_click_verify}
use flaresolverr_go.Challenge.Solve.{
  Loop, webdriver_mouse_wiggle, unless_gone, passive, act_on, webdriver_round, webdriver_loop,
  webdriver_solve_challenge, chromedp_act, chromedp_loop, chromedp_solve_challenge,
  gecko_mouse_wiggle, gecko_round, gecko_loop, gecko_solve_challenge, clicks_at, found_or_none,
  is_nil, wiggles_at, click_turnstile_checkbox,
}

module _ (F : Floats) (p : Tab (F.Float)) where
  -- The last thing that was done is a look at the page that saw no challenge.
  pub IsClear : Trace → Type 0
  IsClear t = (s : Trace) × (challenge_present F p s ≡ (ok false, t))

  abbrev Anything : Trace → Type 0
  Anything t = Unit

  abbrev Clears : {A : Type 0} → A → Drive A → Type 0
  Clears a m = Triple Anything m (λ b t. b ≡ a → IsClear t) Anything

  seen :
      (s : Trace) (x : Result Bool × Trace)
      → challenge_present F p s ≡ x
      → Leaves (λ b t. b ≡ false → IsClear t) Anything x
  unfolding IsClear
  seen s (ok b, t) e = λ f. (s, e ∙ ap (λ c. (ok c, t)) f)
  seen s (err x, t) e = tt

  present-Clears : Clears false (challenge_present F p)
  present-Clears = record { holds = λ s _. seen s (challenge_present F p s) refl }

  gone-Clears :
      (fuel : ℕ) (start : Trace) (d : ℕ) → Clears (some true) (gone_within F p fuel start d)
  unfolding gone_within
  gone-Clears zero start d = returned none (λ s _ e. cc)
  gone-Clears (suc fuel) start d = bind present-Clears λ found.
      branch (not found) (λ b. returned (some true) (λ s h _. h (ground arith)))
        (λ b. record {
          holds = λ t h.
              if_cases (Leaves (λ o s. o ≡ some true → IsClear s) Anything) (p.past start t d)
                (λ _. λ e. cc)
                (λ _. (whatever (pause F p 100) (λ _. gone-Clears fuel start d)).holds t tt);
        })

  wait_gone-Clears : (fuel d : ℕ) → Clears (some true) (wait_challenge_gone F p fuel d)
  unfolding wait_challenge_gone
  wait_gone-Clears fuel d = record { holds = λ t _. (gone-Clears fuel t d).holds t tt }

  abbrev Solves : Loop → Type 0
  Solves m = Clears (some tt) m

  unless_gone-Solves :
      (go : Loop) (o : Option Bool)
      → Solves go
      → Triple
          (λ t. o ≡ some true → IsClear t)
          (unless_gone F p go o)
          (λ r t. r ≡ some tt → IsClear t)
          Anything
  unfolding unless_gone
  unless_gone-Solves go none h = returned none (λ t k e. cc)
  unless_gone-Solves go (some true) h = returned (some tt) (λ t k e. k refl)
  unless_gone-Solves go (some false) h = record { holds = λ t k. h.holds t tt }

  act_on-Solves :
      (next : ℕ → Loop) (streak : ℕ) (targets : Result (List (Target F)))
      → ((n : ℕ) → Solves (next n))
      → Solves (act_on F p next streak targets)
  unfolding act_on passive
  act_on-Solves next streak targets h =
      branch
        (is_nil (relevant_challenge_targets F (found_or_none targets))
          && is_nil (fallback_challenge_targets F (found_or_none targets)))
        (λ _.
          branch (leb 3 (streak + 1))
            (λ _.
              refused
                (failure (
                  "managed challenge still present after "
                  <> (show_ℕ (streak + 1) <> " attempts with no interactive controls")))
                (λ s h. tt))
            (λ _.
              whatever (tried (webdriver_mouse_wiggle F p) >> pause F p 3000)
                (λ _. h (streak + 1))))
        (λ _. whatever (tried (webdriver_click_verify F p (pos 1))) (λ _. h 0))

  webdriver_loop-Solves : (fuel rounds streak : ℕ) → Solves (webdriver_loop F p fuel rounds streak)
  unfolding webdriver_loop webdriver_round
  webdriver_loop-Solves fuel zero streak = returned none (λ s _ e. cc)
  webdriver_loop-Solves fuel (suc rounds) streak = bind present-Clears λ found.
      branch (not found) (λ b. returned (some tt) (λ s h _. h (ground arith)))
        (λ b. record {
          holds = λ t _.
              (bind (wait_gone-Clears fuel 1000) λ o.
                  unless_gone-Solves
                    (attempt (click_targets F p)
                      >>= act_on F p (webdriver_loop F p fuel rounds) streak)
                    o
                    (whatever (attempt (click_targets F p)) λ targets.
                      act_on-Solves (webdriver_loop F p fuel rounds) streak targets
                        (webdriver_loop-Solves fuel rounds))).holds
                t tt;
        })

  chromedp_loop-Solves : (fuel rounds : ℕ) → Solves (chromedp_loop F p fuel rounds)
  unfolding chromedp_loop chromedp_act
  chromedp_loop-Solves fuel zero = returned none (λ s _ e. cc)
  chromedp_loop-Solves fuel (suc rounds) = bind present-Clears λ found.
      branch (not found) (λ b. returned (some tt) (λ s h _. h (ground arith)))
        (λ b. record {
          holds = λ t _.
              (whatever (attempt (click_targets F p)) λ targets.
                  bind
                    (wait_gone-Clears fuel (
                      challenge_auto_wait_duration F
                        (relevant_challenge_targets F (found_or_none targets))))
                    λ o.
                      unless_gone-Solves
                        (tried (chromedp_click_verify F p (pos 1)) >> chromedp_loop F p fuel rounds)
                        o
                        (whatever (tried (chromedp_click_verify F p (pos 1)))
                          λ _. chromedp_loop-Solves fuel rounds)).holds
                t tt;
        })

  -- In a loop that has no fuel, the result says by itself that the challenge is gone.
  abbrev Ends : Drive (Unit {0}) → Type 0
  Ends m = Triple Anything m (λ _. IsClear) Anything

  gecko_loop-Ends : (left attempt clicks : ℕ) → Ends (gecko_loop F p left attempt clicks)
  unfolding gecko_loop gecko_round
  gecko_loop-Ends zero attempt clicks = record { holds = λ s _. tt }
  gecko_loop-Ends (suc left) attempt clicks =
      bind (whatever (pause F p 1000) λ _. present-Clears) λ found.
        branch (not found) (λ b. returned tt (λ s h. h (ground arith)))
          (λ b. record {
            holds = λ t _.
                (whatever
                    ((if clicks_at attempt then tried (click_turnstile_checkbox F p) else skip)
                      >> (if wiggles_at attempt then tried (gecko_mouse_wiggle F p) else skip))
                    λ _.
                      gecko_loop-Ends left (attempt + 1)
                        (if clicks_at attempt then clicks + 1 else clicks)).holds
                  t tt;
          })

  webdriver-Solves : (fuel : ℕ) → Solves (webdriver_solve_challenge F p fuel)
  unfolding webdriver_solve_challenge
  webdriver-Solves fuel =
      whatever (debug_challenge_state F p >> tried (webdriver_mouse_wiggle F p))
        λ _. webdriver_loop-Solves fuel fuel 0

  chromedp-Solves : (fuel : ℕ) → Solves (chromedp_solve_challenge F p fuel)
  unfolding chromedp_solve_challenge
  chromedp-Solves fuel = whatever (debug_challenge_state F p) λ _. chromedp_loop-Solves fuel fuel

  gecko-Ends : Ends (gecko_solve_challenge F p)
  unfolding gecko_solve_challenge
  gecko-Ends = whatever (tried (gecko_mouse_wiggle F p)) λ _. gecko_loop-Ends 30 0 0

  -- If the challenge counts as solved, the page is clear.
  pub IsSolved : Result (Option (Unit {0})) × Trace → Type 0
  IsSolved (ok (some x), t) = IsClear t
  IsSolved (ok none, t) = Unit
  IsSolved (err e, t) = Unit

  pub IsDone : Result (Unit {0}) × Trace → Type 0
  IsDone (ok x, t) = IsClear t
  IsDone (err e, t) = Unit

  solved :
      (x : Result (Option (Unit {0})) × Trace)
      → Leaves (λ r t. r ≡ some tt → IsClear t) Anything x
      → IsSolved x
  unfolding IsSolved
  solved (ok (some tt), t) h = h refl
  solved (ok none, t) h = tt
  solved (err e, t) h = tt

  finished : (x : Result (Unit {0}) × Trace) → Leaves (λ _. IsClear) Anything x → IsDone x
  unfolding IsDone
  finished (ok x, t) h = h
  finished (err e, t) h = tt

  -- solveChallenge of any of the three backends returns without an error only directly after a look
  -- at the page, its title and its elements, that saw no challenge: IsClear of the calls it made.
  pub solved_is_clear :
      (fuel : ℕ) (t : Trace)
      → IsSolved (webdriver_solve_challenge F p fuel t)
        × IsSolved (chromedp_solve_challenge F p fuel t)
        × IsDone (gecko_solve_challenge F p t)
  solved_is_clear fuel t = (
    solved (webdriver_solve_challenge F p fuel t) ((webdriver-Solves fuel).holds t tt),
    solved (chromedp_solve_challenge F p fuel t) ((chromedp-Solves fuel).holds t tt),
    finished (gecko_solve_challenge F p t) (gecko-Ends.holds t tt),
  )
