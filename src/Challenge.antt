-- ===== src/Challenge.antt =====
-- The three backends, server/browser/{webdriver,chromedp,geckodriver}/browser.go: how a challenge is
-- recognized and solved. What the browser answers is the record Tab; the answers depend on the calls
-- before, so that the page may change in between.
pub mod Targets
pub mod Kept
pub mod Clicks
pub mod Solve
use flaresolverr_go.Prelude.{
  ℕ, zero, suc, String, Bool, true, false, not, Option, none, some, List, [], ◌∷◌, ◌++◌, any,
  equal_fold, if◌then◌else◌, Result, ok, err,
}
use flaresolverr_go.Prelude.Int.{ℤ}
use flaresolverr_go.Prelude.Acts.{Act, ◌>>=◌, ◌>>◌, done, skip, attempt}
use flaresolverr_go.Challenge.Targets.{Floats, ClickTarget, Point, is_challenge_iframe_target}

-- The calls on a browser. `enter_frame` and `leave_frame` say whether they succeeded.
pub data Step : Type 0 where
  read_title : Step
  query : String → Step
  run_script : Step
  search_frame : Step
  click_at : Step
  focus : Step
  press_keys : Step
  move_mouse : Step
  release_actions : Step
  enter_frame : Bool → Step
  leave_frame : Bool → Step
  sleep : ℕ → Step

-- The last call first.
abbrev pub Trace : Type 0
Trace = List Step

abbrev pub Drive : Type 0 → Type 0
Drive A = Act Trace A

abbrev pub challenge_titles : List String
challenge_titles = "Just a moment..." ∷ "DDoS-Guard" ∷ []

abbrev pub challenge_selectors : List String
challenge_selectors =
    "#cf-challenge-running" ∷ ".ray_id" ∷ ".attack-box" ∷ "#cf-please-wait" ∷ "#challenge-spinner"
    ∷ "#trk_jschal_js" ∷ "#turnstile-wrapper" ∷ ".lds-ring" ∷ "td.info #js_info"
    ∷ "div.vc div.text-box h2" ∷ []

abbrev pub turnstile_selectors : List String
turnstile_selectors = "input[name='cf-turnstile-response']" ∷ []

-- What the browser answers to a call after these others. `page_targets` is what ClickTargetsScript
-- finds, `hidden_frame` the widget in a closed shadow root, `past` the test of the clock against a
-- deadline that was set some milliseconds after an earlier call.
pub record Tab (Float : Type 0) : Type 0 where
  pub title : Trace → Result String
  pub selector_exists : Trace → String → Result Bool
  pub page_targets : Trace → Result (List (ClickTarget Float))
  pub hidden_frame : Trace → Option (ClickTarget Float)
  pub human_button : Trace → Result (Option (ClickTarget Float))
  pub input_value : Trace → String → Result String
  pub click : Trace → Point Float → Result (Unit {0})
  pub focus : Trace → ClickTarget Float → Result (Unit {0})
  pub focus_helper : Trace → Result (Unit {0})
  pub press_space : Trace → Result (Unit {0})
  pub key_sequence : Trace → ℤ → Result (Unit {0})
  pub move_mouse : Trace → Result (Unit {0})
  -- The element in the document and its shadow roots, "" where there is none.
  pub find_through_shadow : Trace → String → Result String
  pub enter_frame : Trace → String → Bool
  pub leave_frame : Trace → Bool
  pub click_element : Trace → String → Result (Unit {0})
  pub element_selected : Trace → String → Result Bool
  pub sleep : Trace → ℕ → Result (Unit {0})
  pub past : Trace → Trace → ℕ → Bool

abbrev pub call : {A : Type 0} → Step → (Trace → Result A) → Drive A
call c answer = λ t. (answer t, c ∷ t)

-- Code whose error is dropped: _ = f(ctx)
abbrev pub tried : {A : Type 0} → Drive A → Drive (Unit {0})
tried act = attempt act >> skip

-- err == nil && value
abbrev pub is_ok_true : Result Bool → Bool
is_ok_true (ok b) = b
is_ok_true (err e) = false

-- if err == nil { m } else { k }
abbrev pub if_ok : {A B : Type 0} → Result A → Drive B → Drive B → Drive B
if_ok (ok a) m k = m
if_ok (err e) m k = k

module _ (F : Floats) (p : Tab (F.Float)) where
  abbrev pub pause : ℕ → Drive (Unit {0})
  pause d = call (sleep d) λ t. p.sleep t d

  unfoldable pub any_selector : List String → Drive Bool
  any_selector [] = done false
  any_selector (selector ∷ selectors) =
      call (query selector) (λ t. p.selector_exists t selector) >>= λ exists.
      if exists then done true else any_selector selectors

  unfoldable pub challenge_present : Drive Bool
  unfolding any_selector
  challenge_present = call read_title p.title >>= λ title.
      if any (λ known. equal_fold title known) challenge_titles
      then done true
      else any_selector challenge_selectors

  listed : Option (ClickTarget (F.Float)) → List (ClickTarget (F.Float))
  listed none = []
  listed (some frame) = frame ∷ []

  with_frame : List (ClickTarget (F.Float)) → Result Bool → Drive (List (ClickTarget (F.Float)))
  unfolding listed
  with_frame targets present =
      if is_ok_true present
      then (call search_frame (λ t. ok (p.hidden_frame t)) >>= λ frame.
          done (targets ++ listed frame))
      else done targets

  -- The targets of the page, and a hidden frame while a challenge is on the screen.
  unfoldable pub click_targets : Drive (List (ClickTarget (F.Float)))
  unfolding with_frame
  click_targets = call run_script p.page_targets >>= λ targets.
      if any (is_challenge_iframe_target F) targets
      then done targets
      else (attempt challenge_present >>= with_frame targets)

  -- What debugChallengeState asks for its log.
  unfoldable pub debug_challenge_state : Drive (Unit {0})
  debug_challenge_state =
      call run_script (λ t. ok tt) >> call run_script (λ t. ok tt) >> tried click_targets

  unfoldable pub wait_challenge_clear : ℕ → Drive Bool
  wait_challenge_clear d = pause d >> challenge_present >>= λ found. done (not found)

  -- The loop of waitChallengeGone, whose deadline is d after `start`; none when the fuel is used up.
  unfoldable pub gone_within : ℕ → Trace → ℕ → Drive (Option Bool)
  gone_within zero start d = done none
  gone_within (suc fuel) start d = challenge_present >>= λ found.
      if not found then done (some true) else λ t.
      let later = gone_within fuel start d in
      if p.past start t d then (ok (some false), t) else (pause 100 >> later) t

  unfoldable pub wait_challenge_gone : ℕ → ℕ → Drive (Option Bool)
  unfolding gone_within
  wait_challenge_gone fuel d = λ t. gone_within fuel t d t
