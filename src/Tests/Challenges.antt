-- ===== src/Tests/Challenges.antt =====
-- Runs of the solvers of a challenge.
use flaresolverr_go.Prelude.{
  to_lower, equal_fold, ℕ, ◌+◌, ◌-◌, ◌*◌, ◌/◌, true, false, none, some, [], ◌∷◌, ◌≡◌, ◌≢◌, ◌≤◌,
  refl, ◌⊎◌, ltb, leb, eqb, length, if◌then◌else◌, failure, ok, err, arith,
}
use flaresolverr_go.Prelude.Int.{pos, negsuc}
use flaresolverr_go.Challenge.{
  Trace, Tab, challenge_present, debug_challenge_state, click_targets, wait_challenge_gone,
}
use flaresolverr_go.Challenge.Targets.{
  Floats, ClickTarget, Target, tabbable_targets, chosen_tab_stop, is_challenge_iframe_target,
}
use flaresolverr_go.Challenge.Targets.TabStops.{
  Among, IsUsable, Distinct, tabbable_targets-AreStops,
}
use flaresolverr_go.Challenge.Solve.{
  webdriver_mouse_wiggle, webdriver_solve_challenge, chromedp_solve_challenge,
  gecko_solve_challenge,
}
use flaresolverr_go.Challenge.Solve.Cleared.{IsSolved, IsDone, solved_is_clear}
use flaresolverr_go.Challenge.Solve.Termination.{Expires, solving_ends}
use flaresolverr_go.Challenge.Solve.Tally.{seconds, frame_queries}
use flaresolverr_go.Challenge.Solve.GivingUp.{gecko_gives_up}
use flaresolverr_go.Challenge.Solve.Frames.{IsOutside, is_inside, gecko_solve_challenge-IsOutside}

-- Sizes in hundredths.
abbrev floats : Floats
floats = record {
  Float = ℕ;
  hundredths = λ n. n;
  less = ltb;
  at_most = leb;
  plus = λ a b. a + b;
  minus = λ a b. a - b;
  times = λ a b. a * b / 100;
  half = λ a. a / 2;
  least = λ a b. if leb a b then a else b;
  greatest = λ a b. if leb a b then b else a;
  one_decimal = λ a. if eqb a 0 then "0.0" else "1.0";
}

-- A checkbox that takes up 30 by 30.
abbrev checkbox : ClickTarget ℕ
checkbox = record {
  kind = "iframe";
  tag = "iframe";
  type = "";
  text = "";
  id = "cf";
  name = "";
  title = "Widget containing a Cloudflare challenge";
  aria_label = "";
  role = "button";
  class_name = "";
  tab_index = negsuc 0;
  disabled = false;
  src = "https://challenges.cloudflare.com/";
  left = 0;
  top = 0;
  width = 3000;
  height = 3000;
  visible = true;
}

-- A browser that shows a challenge until `cleared` calls were made, and that cannot be asked any
-- more after `ended` calls.
abbrev browser : ℕ → ℕ → Tab ℕ
browser cleared ended = record {
  title = λ t.
      if leb ended (length t)
      then err (failure "context deadline exceeded")
      else ok (if ltb (length t) cleared then "Just a moment..." else "Example Domain");
  selector_exists = λ t selector. ok false;
  page_targets = λ t. ok (checkbox ∷ []);
  hidden_frame = λ t. none;
  human_button = λ t. ok none;
  input_value = λ t selector. ok "";
  click = λ t point. ok tt;
  focus = λ t target. ok tt;
  focus_helper = λ t. ok tt;
  press_space = λ t. ok tt;
  key_sequence = λ t tabs. ok tt;
  move_mouse = λ t. ok tt;
  find_through_shadow = λ t selector. ok "element";
  enter_frame = λ t frame. true;
  leave_frame = λ t. true;
  click_element = λ t element. ok tt;
  element_selected = λ t element. ok true;
  sleep = λ t d. ok tt;
  past = λ start now d. leb 20 (length now - length start);
}

-- The challenge goes away during the first round.
clears : (webdriver_solve_challenge floats (browser 30 1000) 40 []).0 ≡ ok (some tt)
unfolding webdriver_solve_challenge debug_challenge_state challenge_present webdriver_mouse_wiggle
    click_targets is_challenge_iframe_target to_lower equal_fold wait_challenge_gone
clears = refl

solved_is_clear_example :
    IsSolved floats (browser 30 1000) (webdriver_solve_challenge floats (browser 30 1000) 40 [])
    × IsSolved floats (browser 30 1000) (chromedp_solve_challenge floats (browser 30 1000) 40 [])
    × IsDone floats (browser 30 1000) (gecko_solve_challenge floats (browser 30 1000) [])
solved_is_clear_example = solved_is_clear floats (browser 30 1000) 40 []

expires : Expires floats (browser 1000 7) 7
unfolding Expires
expires t h = (failure "context deadline exceeded", ground arith)

solving_ends_example :
    ((webdriver_solve_challenge floats (browser 1000 7) 8 []).0 ≢ ok none)
    × ((chromedp_solve_challenge floats (browser 1000 7) 8 []).0 ≢ ok none)
solving_ends_example = solving_ends floats (browser 1000 7) 7 expires 8 (ground arith) []

-- The same page, whose title never changes.
abbrev stuck : Tab ℕ
stuck = record (browser 0 0) { title = λ t. ok "DDoS-Guard" }

stays : (t : Trace) → (challenge_present floats stuck t).0 ≡ ok true
unfolding challenge_present equal_fold
stays t = refl

gecko_gives_up_example :
    ((gecko_solve_challenge floats stuck []).0
      ≡ err (
          failure
            "cloudflare challenge did not clear within 30 seconds (5 checkbox click attempts)"))
    × (seconds [] + 30 ≤ seconds (gecko_solve_challenge floats stuck []).1)
    × (frame_queries [] + 5 ≤ frame_queries (gecko_solve_challenge floats stuck []).1)
gecko_gives_up_example = gecko_gives_up floats stuck (λ t d. refl) stays []

gecko_solve_challenge-IsOutside_example : IsOutside (gecko_solve_challenge floats stuck []).1
unfolding is_inside
gecko_solve_challenge-IsOutside_example =
    gecko_solve_challenge-IsOutside floats stuck (λ t. refl) [] refl

-- The checkbox is a tab stop by its tag and by its role, and is kept once.
tabbable_targets-AreStops_example :
    Distinct floats (tabbable_targets floats (checkbox ∷ []))
    × ((tabbable_targets floats (checkbox ∷ []) ≡ [])
        ⊎ ((u : Target floats) × (chosen_tab_stop (pos 3) (tabbable_targets floats (checkbox ∷ []))
              ≡ some u)
            × (Among u (checkbox ∷ []) × IsUsable floats u)))
tabbable_targets-AreStops_example = tabbable_targets-AreStops floats (checkbox ∷ []) (pos 3)
