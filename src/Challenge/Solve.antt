-- ===== src/Challenge/Solve.antt =====
-- solveChallenge, resolveTurnstileToken and clickTurnstileCheckbox of the backends,
-- server/browser/{webdriver,chromedp,geckodriver}/browser.go. A loop without a bound has fuel.
pub mod Cleared
pub mod Termination
pub mod Frames
pub mod Tally
pub mod GivingUp
use flaresolverr_go.Prelude.{
  ℕ, zero, suc, ◌+◌, ◌-◌, ◌%◌, String, Bool, true, false, not, ◌&&◌, Option, none, some, List, [],
  ◌∷◌, ◌==◌, ◌<>◌, leb, eqb, if◌then◌else◌, failure, Result, ok, err,
}
use flaresolverr_go.Prelude.Int.{ℤ, pos}
use flaresolverr_go.Prelude.Acts.{◌>>=◌, ◌>>◌, done, skip, fail, attempt}
use flaresolverr_go.Service.Format.{show_ℕ}
use flaresolverr_go.Challenge.{
  query, run_script, click_at, move_mouse, release_actions, enter_frame, leave_frame, Drive, Tab,
  call, tried, if_ok, pause, turnstile_selectors, challenge_present, click_targets,
  wait_challenge_gone, debug_challenge_state,
}
use flaresolverr_go.Challenge.Targets.{
  Floats, Target, relevant_challenge_targets, fallback_challenge_targets,
  challenge_auto_wait_duration,
}
use flaresolverr_go.Challenge.Clicks.{webdriver_click_verify, chromedp_click_verify}

abbrev pub found_or_none : {A : Type 0} → Result (List A) → List A
found_or_none (ok ts) = ts
found_or_none (err e) = []

abbrev is_nil : {A : Type 0} → List A → Bool
is_nil [] = true
is_nil (x ∷ xs) = false

-- The loop that goes on after these many passive rounds; none when its fuel is used up.
abbrev pub Loop : Type 0
Loop = Drive (Option (Unit {0}))

abbrev solved : Loop
solved = done (some tt)

-- attempt >= 3 && (attempt-3)%6 == 0, and attempt%5 == 4
abbrev clicks_at : ℕ → Bool
clicks_at attempt = leb 3 attempt && eqb ((attempt - 3) % 6) 0

abbrev wiggles_at : ℕ → Bool
wiggles_at attempt = eqb (attempt % 5) 4

-- const maxAttempts = 30
abbrev pub gecko_max_attempts : ℕ
gecko_max_attempts = 30

module _ (F : Floats) (p : Tab (F.Float)) where
  -- mouseWiggle of the WebDriver backend: eight points.
  wiggle_points : ℕ → Drive (Unit {0})
  wiggle_points zero = skip
  wiggle_points (suc n) = call move_mouse p.move_mouse >> pause F p 40 >> wiggle_points n

  unfoldable pub webdriver_mouse_wiggle : Drive (Unit {0})
  unfolding wiggle_points
  webdriver_mouse_wiggle = wiggle_points 8

  -- What follows when waitChallengeGone returns.
  unless_gone : Loop → Option Bool → Loop
  unless_gone go none = done none
  unless_gone go (some cleared) = if cleared then solved else go

  -- A round without any controls: after three in a row the solver gives up.
  passive : (ℕ → Loop) → ℕ → Loop
  passive next streak =
      if leb 3 (streak + 1)
      then fail (
          failure (
            "managed challenge still present after "
            <> (show_ℕ (streak + 1) <> " attempts with no interactive controls")))
      else (tried webdriver_mouse_wiggle >> pause F p 3000 >> next (streak + 1))

  act_on : (ℕ → Loop) → ℕ → Result (List (Target F)) → Loop
  unfolding passive
  act_on next streak targets =
      if is_nil (relevant_challenge_targets F (found_or_none targets))
        && is_nil (fallback_challenge_targets F (found_or_none targets))
      then passive next streak
      else (tried (webdriver_click_verify F p (pos 1)) >> next 0)

  webdriver_round : ℕ → (ℕ → Loop) → ℕ → Loop
  unfolding unless_gone act_on
  webdriver_round fuel next streak = challenge_present F p >>= λ found.
      if not found
      then solved
      else wait_challenge_gone F p fuel 1000
        >>= unless_gone (attempt (click_targets F p) >>= act_on next streak)

  webdriver_loop : ℕ → ℕ → ℕ → Loop
  unfolding webdriver_round
  webdriver_loop fuel zero streak = done none
  webdriver_loop fuel (suc rounds) streak = webdriver_round fuel (webdriver_loop fuel rounds) streak

  unfoldable pub webdriver_solve_challenge : ℕ → Loop
  unfolding webdriver_loop
  webdriver_solve_challenge fuel =
      debug_challenge_state F p >> tried webdriver_mouse_wiggle >> webdriver_loop fuel fuel 0

  chromedp_act : ℕ → Loop → Result (List (Target F)) → Loop
  unfolding unless_gone
  chromedp_act fuel next targets =
      wait_challenge_gone F p fuel
        (challenge_auto_wait_duration F (relevant_challenge_targets F (found_or_none targets)))
      >>= unless_gone (tried (chromedp_click_verify F p (pos 1)) >> next)

  chromedp_loop : ℕ → ℕ → Loop
  unfolding chromedp_act
  chromedp_loop fuel zero = done none
  chromedp_loop fuel (suc rounds) = challenge_present F p >>= λ found.
      if not found
      then solved
      else attempt (click_targets F p) >>= chromedp_act fuel (chromedp_loop fuel rounds)

  unfoldable pub chromedp_solve_challenge : ℕ → Loop
  unfolding chromedp_loop
  chromedp_solve_challenge fuel = debug_challenge_state F p >> chromedp_loop fuel fuel

  -- mouseWiggle of the Firefox backend: one request, and the release of the actions.
  unfoldable pub gecko_mouse_wiggle : Drive (Unit {0})
  gecko_mouse_wiggle = attempt (call move_mouse p.move_mouse) >>= λ r.
      call release_actions (λ t. ok tt) >> (λ t. (r, t))

  -- An error means that the widget was replaced, which counts as a success.
  is_replaced_or_true : Result Bool → Bool
  is_replaced_or_true (ok b) = b
  is_replaced_or_true (err e) = true

  clicked_and_checked : String → Drive Bool
  unfolding is_replaced_or_true
  clicked_and_checked checkbox = attempt (call click_at λ t. p.click_element t checkbox) >>= λ r.
      if_ok r
        (tried (pause F p 500)
          >> attempt (call run_script λ t. p.element_selected t checkbox)
          >>= λ selected. done (is_replaced_or_true selected))
        (done false)

  found_then : (String → Drive Bool) → Result String → Drive Bool
  found_then go (err e) = done false
  found_then go (ok element) = if element == "" then done false else go element

  in_frame : Drive Bool
  unfolding clicked_and_checked found_then
  in_frame =
      attempt
        (call (query "input[type=checkbox]") λ t. p.find_through_shadow t "input[type=checkbox]")
      >>= found_then clicked_and_checked

  -- What is done in a frame that was entered ends with the return to the page.
  within_frame : Bool → Drive Bool
  unfolding in_frame
  within_frame entered =
      if not entered
      then done false
      else in_frame >>= λ clicked. λ t. (ok clicked, leave_frame (p.leave_frame t) ∷ t)

  entering : String → Drive Bool
  unfolding within_frame
  entering frame =
      λ t. within_frame (p.enter_frame t frame) (enter_frame (p.enter_frame t frame) ∷ t)

  unfoldable pub click_turnstile_checkbox : Drive Bool
  unfolding found_then entering
  click_turnstile_checkbox =
      attempt (
        call (query "iframe[src*=\"challenges.cloudflare.com\"]")
          λ t. p.find_through_shadow t "iframe[src*=\"challenges.cloudflare.com\"]")
      >>= found_then entering

  gecko_round : Drive (Unit {0}) → ℕ → Drive (Unit {0})
  unfolding click_turnstile_checkbox
  gecko_round next attempt = pause F p 1000 >> challenge_present F p >>= λ found.
      if not found
      then skip
      else ((if clicks_at attempt then tried click_turnstile_checkbox else skip)
          >> (if wiggles_at attempt then tried gecko_mouse_wiggle else skip)
          >> next)

  -- The attempts that are left, the number of the next one, and the clicks so far.
  gecko_loop : ℕ → ℕ → ℕ → Drive (Unit {0})
  unfolding gecko_round
  gecko_loop zero attempt clicks = fail (
      failure (
        "cloudflare challenge did not clear within "
        <> (show_ℕ gecko_max_attempts
            <> (" seconds (" <> (show_ℕ clicks <> " checkbox click attempts)")))))
  gecko_loop (suc left) attempt clicks =
      gecko_round (gecko_loop left (attempt + 1) (if clicks_at attempt then clicks + 1 else clicks))
        attempt

  unfoldable pub gecko_solve_challenge : Drive (Unit {0})
  unfolding gecko_loop
  gecko_solve_challenge = tried gecko_mouse_wiggle >> gecko_loop gecko_max_attempts 0 0

  module _ (click_verify : ℤ → Drive (Unit {0})) where
    -- The inner loop of resolveTurnstileToken, on a selector that is on the page.
    token_loop : ℕ → ℤ → String → Drive (Option String)
    token_loop zero tabs selector = done none
    token_loop (suc fuel) tabs selector =
        call run_script (λ t. p.input_value t selector) >>= λ token.
        if not (token == "")
        then done (some token)
        else (click_verify tabs
            >> call run_script p.focus_helper
            >> pause F p 1000
            >> token_loop fuel tabs selector)

    tokens : ℕ → ℤ → List String → Drive (Option String)
    unfolding token_loop
    tokens fuel tabs [] = done (some "")
    tokens fuel tabs (selector ∷ selectors) =
        call (query selector) (λ t. p.selector_exists t selector) >>= λ exists.
        if exists then token_loop fuel tabs selector else tokens fuel tabs selectors

    unfoldable pub resolve_turnstile_token : ℕ → ℤ → Drive (Option String)
    unfolding tokens
    resolve_turnstile_token fuel tabs = tokens fuel tabs turnstile_selectors
