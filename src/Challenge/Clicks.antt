-- ===== src/Challenge/Clicks.antt =====
-- server/browser/webdriver/browser.go and server/browser/chromedp/browser.go: the clicks on a
-- challenge, which both do in the same order but for the button of the WebDriver backend.
pub mod Kept
use flaresolverr_go.Prelude.{
  ℕ, Bool, true, false, not, ◌&&◌, Option, none, some, List, [], ◌∷◌, ◌||◌, ◌==◌, length,
  if◌then◌else◌, failure, ok, err,
}
use flaresolverr_go.Prelude.Int.{ℤ}
use flaresolverr_go.Prelude.Acts.{◌>>=◌, ◌>>◌, done, skip, fail, attempt}
use flaresolverr_go.Challenge.{
  click_at, focus, press_keys, run_script, leave_frame, Drive, Tab, call, tried, if_ok, is_ok_true,
  pause, click_targets, wait_challenge_clear, debug_challenge_state,
}
use flaresolverr_go.Challenge.Targets.{
  Floats, Target, Point, is_challenge_iframe_target, is_verify_button_target,
  click_points_for_target, tabbable_targets, chosen_tab_stop, nth,
}

module _ (F : Floats) (p : Tab (F.Float)) where
  abbrev pub click_point : Point (F.Float) → Drive (Unit {0})
  click_point point = call click_at λ t. p.click t point

  -- The points of one iframe: whether one was clicked, so far and in all, and whether the challenge
  -- was gone after it.
  iframe_points : List (Point (F.Float)) → Bool → Drive (Bool × Bool)
  iframe_points [] clicked = done (clicked, false)
  iframe_points (point ∷ points) clicked = attempt (click_point point) >>= λ r.
      if_ok r
        (attempt (wait_challenge_clear F p 1500) >>= λ cleared.
          if is_ok_true cleared then done (true, true) else iframe_points points true)
        (iframe_points points clicked)

  iframes : List (Target F) → Bool → Drive Bool
  unfolding iframe_points
  iframes [] clicked = done clicked
  iframes (t ∷ ts) clicked =
      if not (is_challenge_iframe_target F t)
      then iframes ts clicked
      else iframe_points (click_points_for_target F t) clicked >>= λ (so_far, cleared).
          if cleared then done true else iframes ts so_far

  unfoldable pub click_challenge_iframes : Drive Bool
  unfolding iframes
  click_challenge_iframes = click_targets F p >>= λ ts. iframes ts false

  -- Every point is clicked.
  button_points : List (Point (F.Float)) → Bool → Drive Bool
  button_points [] clicked = done clicked
  button_points (point ∷ points) clicked = attempt (click_point point) >>= λ r.
      if_ok r (button_points points true) (button_points points clicked)

  buttons : List (Target F) → Bool → Drive Bool
  unfolding button_points
  buttons [] clicked = done clicked
  buttons (t ∷ ts) clicked =
      if not (is_verify_button_target F t)
      then buttons ts clicked
      else button_points (click_points_for_target F t) clicked >>= buttons ts

  unfoldable pub click_verify_buttons : Drive Bool
  unfolding buttons
  click_verify_buttons = click_targets F p >>= λ ts. buttons ts false

  -- The first point that can be clicked.
  first_point : List (Point (F.Float)) → Drive Bool
  first_point [] = done false
  first_point (point ∷ points) =
      attempt (click_point point) >>= λ r. if_ok r (done true) (first_point points)

  human : Option (Target F) → Drive Bool
  unfolding first_point
  human none = done false
  human (some t) = first_point (click_points_for_target F t)

  unfoldable pub click_verify_human_button : Drive Bool
  unfolding human
  click_verify_human_button = call run_script p.human_button >>= human

  abbrev has_area : Target F → Bool
  has_area t = F.less (F.hundredths 0) t.width && F.less (F.hundredths 0) t.height

  -- Which targets are clicked before a key is pressed on them.
  unfoldable pub webdriver_clickable : Target F → Bool
  webdriver_clickable t = t.visible && has_area t

  unfoldable pub chromedp_clickable : Target F → Bool
  chromedp_clickable t = (t.kind == "iframe") || (t.visible && has_area t)

  -- clickTabbableChallengeTarget on its target. An index out of range panics in Go.
  press : (Target F → Bool) → Option (Target F) → Drive Bool
  unfolding first_point
  press clickable none = fail (failure "index out of range")
  press clickable (some t) =
      tried (call focus λ s. p.focus s t)
      >> (if clickable t then first_point (click_points_for_target F t) else done false)
      >>= λ clicked. if clicked then done true else (call press_keys p.press_space >> done true)

  tab_to : (Target F → Bool) → ℤ → List (Target F) → Drive Bool
  unfolding chosen_tab_stop press
  tab_to clickable tabs [] = done false
  tab_to clickable tabs (t ∷ ts) = press clickable (chosen_tab_stop tabs (t ∷ ts))

  unfoldable pub click_tabbable_challenge_target : (Target F → Bool) → ℤ → Drive Bool
  unfolding tab_to
  click_tabbable_challenge_target clickable tabs =
      click_targets F p >>= λ ts. tab_to clickable tabs (tabbable_targets F ts)

  -- The steps in their order, each with the wait after a click, until the challenge is seen gone.
  unfoldable pub run_steps : List (ℕ × Drive Bool) → Drive Bool
  run_steps [] = done false
  run_steps ((wait, run) ∷ steps) = attempt run >>= λ clicked.
      if not (is_ok_true clicked)
      then run_steps steps
      else attempt (wait_challenge_clear F p wait) >>= λ cleared.
          if is_ok_true cleared then done true else run_steps steps

  -- b.switchToDefaultContent(ctx)
  abbrev leave : Drive (Unit {0})
  leave = λ t. (ok tt, leave_frame (p.leave_frame t) ∷ t)

  unfoldable pub webdriver_click_verify : ℤ → Drive (Unit {0})
  unfolding run_steps
  webdriver_click_verify tabs =
      debug_challenge_state F p
      >> leave
      >> run_steps (
          (1500, click_challenge_iframes)
          ∷ (1500, click_verify_human_button)
          ∷ (1500, click_verify_buttons)
          ∷ (1500, click_tabbable_challenge_target webdriver_clickable tabs)
          ∷ [])
      >>= λ cleared.
          if cleared
          then (leave >> debug_challenge_state F p)
          else (tried (call press_keys λ t. p.key_sequence t tabs)
              >> leave
              >> debug_challenge_state F p
              >> pause F p 2000)

  unfoldable pub chromedp_click_verify : ℤ → Drive (Unit {0})
  unfolding run_steps
  chromedp_click_verify tabs =
      debug_challenge_state F p
      >> run_steps (
          (3000, click_challenge_iframes)
          ∷ (2000, click_verify_buttons)
          ∷ (2000, click_tabbable_challenge_target chromedp_clickable tabs)
          ∷ [])
      >>= λ cleared.
          if cleared
          then debug_challenge_state F p
          else (tried (call press_keys λ t. p.key_sequence t tabs)
              >> attempt (wait_challenge_clear F p 1500)
              >>= λ gone.
                  if is_ok_true gone then skip else (debug_challenge_state F p >> pause F p 2000))
