-- ===== src/Challenge/Clicks/Kept.antt =====
-- server/browser/webdriver/browser.go and server/browser/chromedp/browser.go: what every call keeps
-- is kept by the clicks.
use flaresolverr_go.Prelude.{
  ℕ, Bool, true, false, not, Option, none, some, List, [], ◌∷◌, All, failure,
}
use flaresolverr_go.Prelude.Int.{ℤ}
use flaresolverr_go.Prelude.Acts.{done, attempt}
use flaresolverr_go.Prelude.Acts.Triples.{bind, choice, refused, kept, attempted}
use flaresolverr_go.Challenge.{
  click_at, focus, press_keys, run_script, leave_frame, Trace, Drive, Tab, call, tried, is_ok_true,
}
use flaresolverr_go.Challenge.Kept.{
  Keeps, Lasting, if_ok-Keeps, call-Keeps, pause-Keeps, done-Keeps, tried-Keeps, targets-Keeps,
  debug-Keeps, clear-Keeps,
}
use flaresolverr_go.Challenge.Targets.{
  Floats, Target, Point, is_challenge_iframe_target, is_verify_button_target,
  click_points_for_target, tabbable_targets, chosen_tab_stop,
}
use flaresolverr_go.Challenge.Clicks.{
  click_point, iframe_points, iframes, click_challenge_iframes, button_points, buttons,
  click_verify_buttons, first_point, human, click_verify_human_button, press, tab_to,
  click_tabbable_challenge_target, run_steps, leave, webdriver_click_verify, chromedp_click_verify,
  webdriver_clickable, chromedp_clickable,
}

module _ (F : Floats) (p : Tab (F.Float)) (P : Trace → Type 0) (lasts : Lasting P) where
  abbrev Kept : {A : Type 0} → Drive A → Type 0
  Kept {A} m = Keeps P m

  clicked : (point : Point (F.Float)) → Kept (attempt (click_point F p point))
  clicked point = attempted (call-Keeps F p P lasts click_at (λ t. p.click t point))

  ended : {A : Type 0} (a : A) → Kept (done a)
  ended a = done-Keeps F p P lasts a

  iframe_points-Keeps :
      (points : List (Point (F.Float))) (clicked_before : Bool)
      → Kept (iframe_points F p points clicked_before)
  unfolding iframe_points
  iframe_points-Keeps [] b = ended (b, false)
  iframe_points-Keeps (point ∷ points) b = bind (clicked point) λ r.
      if_ok-Keeps F p P lasts r
        (bind (attempted (clear-Keeps F p P lasts 1500)) λ cleared.
          choice (is_ok_true cleared) (ended (true, true)) (iframe_points-Keeps points true))
        (iframe_points-Keeps points b)

  iframes-Keeps : (ts : List (Target F)) (b : Bool) → Kept (iframes F p ts b)
  unfolding iframes
  iframes-Keeps [] b = ended b
  iframes-Keeps (t ∷ ts) b = choice (not (is_challenge_iframe_target F t)) (iframes-Keeps ts b) (
      bind (iframe_points-Keeps (click_points_for_target F t) b)
        λ found. choice found.1 (ended true) (iframes-Keeps ts found.0))

  click_iframes-Keeps : Kept (click_challenge_iframes F p)
  unfolding click_challenge_iframes
  click_iframes-Keeps = bind (targets-Keeps F p P lasts) λ ts. iframes-Keeps ts false

  button_points-Keeps :
      (points : List (Point (F.Float))) (b : Bool) → Kept (button_points F p points b)
  unfolding button_points
  button_points-Keeps [] b = ended b
  button_points-Keeps (point ∷ points) b = bind (clicked point) λ r.
      if_ok-Keeps F p P lasts r (button_points-Keeps points true) (button_points-Keeps points b)

  buttons-Keeps : (ts : List (Target F)) (b : Bool) → Kept (buttons F p ts b)
  unfolding buttons
  buttons-Keeps [] b = ended b
  buttons-Keeps (t ∷ ts) b =
      choice (not (is_verify_button_target F t)) (buttons-Keeps ts b)
        (bind (button_points-Keeps (click_points_for_target F t) b) (buttons-Keeps ts))

  click_buttons-Keeps : Kept (click_verify_buttons F p)
  unfolding click_verify_buttons
  click_buttons-Keeps = bind (targets-Keeps F p P lasts) λ ts. buttons-Keeps ts false

  first_point-Keeps : (points : List (Point (F.Float))) → Kept (first_point F p points)
  unfolding first_point
  first_point-Keeps [] = ended false
  first_point-Keeps (point ∷ points) =
      bind (clicked point) λ r. if_ok-Keeps F p P lasts r (ended true) (first_point-Keeps points)

  human-Keeps : (t : Option (Target F)) → Kept (human F p t)
  unfolding human
  human-Keeps none = ended false
  human-Keeps (some t) = first_point-Keeps (click_points_for_target F t)

  click_human-Keeps : Kept (click_verify_human_button F p)
  unfolding click_verify_human_button
  click_human-Keeps = bind (call-Keeps F p P lasts run_script p.human_button) human-Keeps

  press-Keeps : (clickable : Target F → Bool) (t : Option (Target F)) → Kept (press F p clickable t)
  unfolding press
  press-Keeps clickable none = refused (failure "index out of range") (λ s h. h)
  press-Keeps clickable (some t) =
      bind
        (bind (tried-Keeps F p P lasts (call-Keeps F p P lasts focus (λ s. p.focus s t)))
          λ _. choice (clickable t) (first_point-Keeps (click_points_for_target F t)) (ended false))
        λ pressed.
          choice pressed (ended true)
            (bind (call-Keeps F p P lasts press_keys p.press_space) λ _. ended true)

  tab_to-Keeps :
      (clickable : Target F → Bool) (tabs : ℤ) (ts : List (Target F))
      → Kept (tab_to F p clickable tabs ts)
  unfolding tab_to
  tab_to-Keeps clickable tabs [] = ended false
  tab_to-Keeps clickable tabs (t ∷ ts) = press-Keeps clickable (chosen_tab_stop tabs (t ∷ ts))

  click_tabbable-Keeps :
      (clickable : Target F → Bool) (tabs : ℤ)
      → Kept (click_tabbable_challenge_target F p clickable tabs)
  unfolding click_tabbable_challenge_target
  click_tabbable-Keeps clickable tabs =
      bind (targets-Keeps F p P lasts) λ ts. tab_to-Keeps clickable tabs (tabbable_targets F ts)

  -- Every step keeps it.
  abbrev Each : List (ℕ × Drive Bool) → Type 0
  Each steps = All (λ s. Kept s.1) steps

  run_steps-Keeps : (steps : List (ℕ × Drive Bool)) → Each steps → Kept (run_steps F p steps)
  unfolding run_steps
  run_steps-Keeps [] h = ended false
  run_steps-Keeps ((wait, run) ∷ steps) h = bind (attempted h.0) λ pressed.
      choice (not (is_ok_true pressed)) (run_steps-Keeps steps h.1) (
        bind (attempted (clear-Keeps F p P lasts wait))
          λ cleared. choice (is_ok_true cleared) (ended true) (run_steps-Keeps steps h.1))

  leave-Keeps : Kept (leave F p)
  unfolding Lasting
  leave-Keeps = kept λ t h. lasts (leave_frame (p.leave_frame t)) t h

  keys-Keeps : (tabs : ℤ) → Kept (tried (call press_keys λ t. p.key_sequence t tabs))
  keys-Keeps tabs =
      tried-Keeps F p P lasts (call-Keeps F p P lasts press_keys (λ t. p.key_sequence t tabs))

  pub webdriver_verify-Keeps : (tabs : ℤ) → Kept (webdriver_click_verify F p tabs)
  unfolding webdriver_click_verify
  webdriver_verify-Keeps tabs =
      bind
        (bind (bind (debug-Keeps F p P lasts) λ _. leave-Keeps) λ _.
          run_steps-Keeps
            ((1500, click_challenge_iframes F p)
              ∷ (1500, click_verify_human_button F p)
              ∷ (1500, click_verify_buttons F p)
              ∷ (1500, click_tabbable_challenge_target F p (webdriver_clickable F p) tabs)
              ∷ [])
            (
              click_iframes-Keeps,
              (
                click_human-Keeps,
                (click_buttons-Keeps, (click_tabbable-Keeps (webdriver_clickable F p) tabs, tt)),
              ),
            ))
        λ cleared. choice cleared (bind leave-Keeps λ _. debug-Keeps F p P lasts) (
          bind (bind (bind (keys-Keeps tabs) λ _. leave-Keeps) λ _. debug-Keeps F p P lasts)
            λ _. pause-Keeps F p P lasts 2000)

  pub chromedp_verify-Keeps : (tabs : ℤ) → Kept (chromedp_click_verify F p tabs)
  unfolding chromedp_click_verify
  chromedp_verify-Keeps tabs =
      bind
        (bind (debug-Keeps F p P lasts) λ _.
          run_steps-Keeps
            ((3000, click_challenge_iframes F p)
              ∷ (2000, click_verify_buttons F p)
              ∷ (2000, click_tabbable_challenge_target F p (chromedp_clickable F p) tabs)
              ∷ [])
            (
              click_iframes-Keeps,
              (click_buttons-Keeps, (click_tabbable-Keeps (chromedp_clickable F p) tabs, tt)),
            ))
        λ cleared. choice cleared (debug-Keeps F p P lasts) (
          bind (bind (keys-Keeps tabs) λ _. attempted (clear-Keeps F p P lasts 1500)) λ gone.
            choice (is_ok_true gone) (ended tt)
              (bind (debug-Keeps F p P lasts) λ _. pause-Keeps F p P lasts 2000))
