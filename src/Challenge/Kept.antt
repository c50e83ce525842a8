-- ===== src/Challenge/Kept.antt =====
-- server/browser/{webdriver,chromedp,geckodriver}/browser.go: what every call keeps is kept by the
-- looks at the page.
use flaresolverr_go.Prelude.{
  ℕ, Bool, true, false, not, List, [], ◌∷◌, ◌++◌, any, if◌then◌else◌, equal_fold, String, Result,
  ok, err,
}
use flaresolverr_go.Prelude.Acts.{done}
use flaresolverr_go.Prelude.Acts.Triples.{Triple, bind, choice, returned, kept, attempted}
use flaresolverr_go.Challenge.{
  Step, query, read_title, run_script, search_frame, sleep, if_ok, Trace, Drive, Tab, call, tried,
  pause, is_ok_true, any_selector, challenge_titles, challenge_selectors, challenge_present, listed,
  with_frame, click_targets, wait_challenge_clear, debug_challenge_state,
}
use flaresolverr_go.Challenge.Targets.{Floats, Target, is_challenge_iframe_target}

abbrev pub Keeps : (Trace → Type 0) → {A : Type 0} → Drive A → Type 0
Keeps P {A} m = Triple P m (λ (_ : A). P) P

-- What holds after any further call.
unfoldable pub Lasting : (Trace → Type 0) → Type 0
Lasting P = (c : Step) (t : Trace) → P t → P (c ∷ t)

module _ (F : Floats) (p : Tab (F.Float)) (P : Trace → Type 0) (lasts : Lasting P) where
  pub call-Keeps : {A : Type 0} (c : Step) (answer : Trace → Result A) → Keeps P (call c answer)
  unfolding Lasting
  call-Keeps c answer = kept λ t h. lasts c t h

  pub pause-Keeps : (d : ℕ) → Keeps P (pause F p d)
  pause-Keeps d = call-Keeps (sleep d) (λ t. p.sleep t d)

  pub done-Keeps : {A : Type 0} (a : A) → Keeps P (done a)
  done-Keeps a = returned a (λ s h. h)

  pub tried-Keeps : {A : Type 0} {m : Drive A} → Keeps P m → Keeps P (tried m)
  tried-Keeps h = bind (attempted h) λ _. done-Keeps tt

  pub if_ok-Keeps :
      {A B : Type 0} (r : Result A) {m k : Drive B} → Keeps P m → Keeps P k → Keeps P (if_ok r m k)
  if_ok-Keeps (ok a) h j = h
  if_ok-Keeps (err e) h j = j

  selector-Keeps : (selectors : List String) → Keeps P (any_selector F p selectors)
  unfolding any_selector
  selector-Keeps [] = done-Keeps false
  selector-Keeps (s ∷ ss) =
      bind (call-Keeps (query s) (λ t. p.selector_exists t s))
        λ exists. choice exists (done-Keeps true) (selector-Keeps ss)

  -- challengePresent after the title.
  pub titled-Keeps :
      (title : String)
      → Keeps P (
          if any (λ known. equal_fold title known) challenge_titles
          then done true
          else any_selector F p challenge_selectors)
  titled-Keeps title =
      choice (any (λ known. equal_fold title known) challenge_titles) (done-Keeps true)
        (selector-Keeps challenge_selectors)

  pub present-Keeps : Keeps P (challenge_present F p)
  unfolding challenge_present
  present-Keeps = bind (call-Keeps read_title p.title) titled-Keeps

  with_frame-Keeps :
      (targets : List (Target F)) (present : Result Bool) → Keeps P (with_frame F p targets present)
  unfolding with_frame
  with_frame-Keeps targets present =
      choice (is_ok_true present)
        (bind (call-Keeps search_frame (λ t. ok (p.hidden_frame t)))
          λ frame. done-Keeps (targets ++ listed F p frame))
        (done-Keeps targets)

  pub targets-Keeps : Keeps P (click_targets F p)
  unfolding click_targets
  targets-Keeps = bind (call-Keeps run_script p.page_targets) λ targets.
      choice (any (is_challenge_iframe_target F) targets) (done-Keeps targets)
        (bind (attempted present-Keeps) (with_frame-Keeps targets))

  pub debug-Keeps : Keeps P (debug_challenge_state F p)
  unfolding debug_challenge_state
  debug-Keeps =
      bind (bind (call-Keeps run_script (λ t. ok tt)) λ _. call-Keeps run_script (λ t. ok tt))
        λ _. tried-Keeps targets-Keeps

  pub clear-Keeps : (d : ℕ) → Keeps P (wait_challenge_clear F p d)
  unfolding wait_challenge_clear
  clear-Keeps d = bind (bind (pause-Keeps d) λ _. present-Keeps) λ found. done-Keeps (not found)
