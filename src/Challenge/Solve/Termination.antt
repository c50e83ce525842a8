-- ===== src/Challenge/Solve/Termination.antt =====
-- server/browser/webdriver/browser.go and server/browser/chromedp/browser.go: the loops of a solver
-- end when the context of the request does.
use flaresolverr_go.Prelude.{
  ℕ, zero, suc, ◌+◌, ◌≤◌, ◌<◌, String, Bool, true, false, not, ◌&&◌, Option, none, some, List, ◌∷◌,
  ◌≡◌, ◌≢◌, refl, ◌<>◌, any, equal_fold, leb, length, failure, arith, if◌then◌else◌, if_cases,
  Bool-cases, inl, inr, Error, Result, ok, err, ok-injective,
}
use flaresolverr_go.Prelude.Int.{pos}
use flaresolverr_go.Prelude.Acts.{after, ◌>>=◌, ◌>>◌, done, attempt}
use flaresolverr_go.Prelude.Acts.Triples.{
  Leaves, Triple, bind, choice, returned, refused, attempted, unless_error, leaves_weaker,
}
use flaresolverr_go.Service.Format.{show_ℕ}
use flaresolverr_go.Challenge.{
  read_title, move_mouse, Trace, Drive, Tab, tried, challenge_present, challenge_titles,
  challenge_selectors, any_selector, gone_within, wait_challenge_gone, click_targets,
}
use flaresolverr_go.Challenge.Kept.{
  Keeps, Lasting, call-Keeps, pause-Keeps, done-Keeps, tried-Keeps, titled-Keeps, targets-Keeps,
  debug-Keeps,
}
use flaresolverr_go.Challenge.Clicks.Kept.{webdriver_verify-Keeps, chromedp_verify-Keeps}
use flaresolverr_go.Challenge.Targets.{
  Floats, Target, challenge_auto_wait_duration, relevant_challenge_targets,
  fallback_challenge_targets,
}
use flaresolverr_go.Challenge.Clicks.{chromedp_click_verify}
use flaresolverr_go.Challenge.Solve.{
  Loop, wiggle_points, webdriver_mouse_wiggle, unless_gone, passive, act_on, webdriver_round,
  webdriver_loop, webdriver_solve_challenge, chromedp_act, chromedp_loop, chromedp_solve_challenge,
  found_or_none, is_nil,
}

module _ (F : Floats) (p : Tab (F.Float)) (n : ℕ) where
  -- The context of the request has ended after n calls: from then on, the title cannot be read.
  unfoldable pub Expires : Type 0
  Expires = (t : Trace) → n ≤ length t → (e : Error) × (p.title t ≡ err e)

  -- There are enough rounds left.
  abbrev Live : ℕ → Trace → Type 0
  Live r t = (n < r + length t) × (1 ≤ r)

  Live-Lasting : (r : ℕ) → Lasting (Live r)
  unfolding Lasting
  Live-Lasting r c t h = (ground arith, h.1)

  wiggle_points-Keeps : (P : Trace → Type 0) → Lasting P → (k : ℕ) → Keeps P (wiggle_points F p k)
  unfolding wiggle_points
  wiggle_points-Keeps P l zero = done-Keeps F p P l tt
  wiggle_points-Keeps P l (suc k) =
      bind (bind (call-Keeps F p P l move_mouse p.move_mouse) λ _. pause-Keeps F p P l 40)
        λ _. wiggle_points-Keeps P l k

  wiggle-Keeps : (P : Trace → Type 0) → Lasting P → Keeps P (webdriver_mouse_wiggle F p)
  unfolding webdriver_mouse_wiggle
  wiggle-Keeps P l = wiggle_points-Keeps P l 8

  both-Lasting : (P Q : Trace → Type 0) → Lasting P → Lasting Q → Lasting (λ t. P t × Q t)
  unfolding Lasting
  both-Lasting P Q l k c t h = (l c t h.0, k c t h.1)

  module _ (expires : Expires) where
    in_time : (t : Trace) (s : String) → p.title t ≡ ok s → length t < n
    unfolding Expires
    in_time t s e = elim (Bool-cases (leb n (length t))) [
      | inl h ↦ let (x, d) = expires t (ground arith) in cc
      | inr h ↦ ground arith
    ]

    -- A look at the page takes one of the rounds: when it has an answer, there are more.
    titled :
        (r : ℕ) (P : Trace → Type 0) (l : Lasting P) (t : Trace)
        → Live (suc r) t
        → P t
        → (x : Result String) → p.title t ≡ x
        → Leaves
            (λ (_ : Bool) s. Live r s × P s)
            (λ _. Unit)
            (after
              (x, read_title ∷ t)
              λ title.
                if any (λ known. equal_fold title known) challenge_titles
                then done true
                else any_selector F p challenge_selectors)
    unfolding Lasting
    titled r P l t h k (err x) e = tt
    titled r P l t h k (ok s) e =
        let d = in_time t s e in
        (unless_error (
            titled-Keeps F p (λ u. Live r u × P u) (both-Lasting (Live r) P (Live-Lasting r) l)
              s)).holds
          (read_title ∷ t) ((ground arith, ground arith), l read_title t k)

    present-Live :
        (r : ℕ) (P : Trace → Type 0)
        → Lasting P
        → Triple
            (λ t. Live (suc r) t × P t)
            (challenge_present F p)
            (λ _ t. Live r t × P t)
            (λ _. Unit)
    unfolding challenge_present
    present-Live r P l = record { holds = λ t h. titled r P l t h.0 h.1 (p.title t) refl }

    -- waitChallengeGone ends before its fuel does.
    gone-Live :
        (fuel : ℕ) (start : Trace) (d : ℕ) (P : Trace → Type 0)
        → Lasting P
        → Triple
            (λ t. Live fuel t × P t)
            (gone_within F p fuel start d)
            (λ o t. (o ≢ none) × P t)
            (λ _. Unit)
    unfolding gone_within
    gone-Live zero start d P l = record { holds = λ t h. ground arith }
    gone-Live (suc fuel) start d P l = bind (present-Live fuel P l) λ found.
        choice (not found) (returned (some true) (λ t h. ((λ e. cc), h.1))) (record {
          holds = λ t h.
              if_cases (Leaves (λ o s. (o ≢ none) × P s) (λ _. Unit)) (p.past start t d)
                (λ _. ((λ e. cc), h.1))
                (λ _.
                  (bind
                      (unless_error (
                        pause-Keeps F p (λ u. Live fuel u × P u)
                          (both-Lasting (Live fuel) P (Live-Lasting fuel) l) 100))
                      λ _. gone-Live fuel start d P l).holds
                    t h);
        })

    module _ (fuel : ℕ) (enough : n < fuel) where
      wait_gone-Live :
          (r d : ℕ)
          → Triple
              (Live r)
              (wait_challenge_gone F p fuel d)
              (λ o t. (o ≢ none) × Live r t)
              (λ _. Unit)
      unfolding wait_challenge_gone
      wait_gone-Live r d = record {
        holds = λ t h.
            (gone-Live fuel t d (Live r) (Live-Lasting r)).holds t
              ((ground arith, ground arith), h);
      }

      -- The loop has a result other than that of used up fuel.
      abbrev Ends : ℕ → Loop → Type 0
      Ends r m = Triple (Live r) m (λ o _. o ≢ none) (λ _. Unit)

      unless_gone-Ends :
          (r : ℕ) (go : Loop) (o : Option Bool)
          → Ends r go
          → Triple (λ t. (o ≢ none) × Live r t) (unless_gone F p go o) (λ o _. o ≢ none) (λ _. Unit)
      unfolding unless_gone
      unless_gone-Ends r go none h = record { holds = λ t k. absurd (k.0 refl) }
      unless_gone-Ends r go (some true) h = returned (some tt) (λ t k e. cc)
      unless_gone-Ends r go (some false) h = record { holds = λ t k. h.holds t k.1 }

      keeps :
          {A : Type 0} {r : ℕ} {m : Drive A}
          → Keeps (Live r) m
          → Triple (Live r) m (λ _. Live r) (λ _. Unit)
      keeps h = unless_error h

      act_on-Ends :
          (r : ℕ) (next : ℕ → Loop) (streak : ℕ) (targets : Result (List (Target F)))
          → ((k : ℕ) → Ends r (next k))
          → Ends r (act_on F p next streak targets)
      unfolding act_on passive
      act_on-Ends r next streak targets h =
          choice
            (is_nil (relevant_challenge_targets F (found_or_none targets))
              && is_nil (fallback_challenge_targets F (found_or_none targets)))
            (choice (leb 3 (streak + 1))
              (refused
                (failure (
                  "managed challenge still present after "
                  <> (show_ℕ (streak + 1) <> " attempts with no interactive controls")))
                (λ s h. tt))
              (bind
                (bind
                  (keeps (
                    tried-Keeps F p (Live r) (Live-Lasting r)
                      (wiggle-Keeps (Live r) (Live-Lasting r))))
                  λ _. keeps (pause-Keeps F p (Live r) (Live-Lasting r) 3000))
                λ _. h (streak + 1)))
            (bind
              (keeps (
                tried-Keeps F p (Live r) (Live-Lasting r)
                  (webdriver_verify-Keeps F p (Live r) (Live-Lasting r) (pos 1))))
              λ _. h 0)

      first_look : (r : ℕ) → Triple (Live (suc r)) (challenge_present F p) (λ _. Live r) (λ _. Unit)
      unfolding Lasting
      first_look r = record {
        holds = λ t h.
            let k = (present-Live r (λ _. Unit) (λ c t u. tt)).holds t (h, tt) in
            leaves_weaker (λ _ u. Live r u × Unit) (λ _. Live r) (λ _. Unit)
              (challenge_present F p t) (λ _ u q. q.0) k;
      }

      webdriver_loop-Ends :
          (rounds streak : ℕ) → Ends rounds (webdriver_loop F p fuel rounds streak)
      unfolding webdriver_loop webdriver_round
      webdriver_loop-Ends zero streak = record { holds = λ t h. ground arith }
      webdriver_loop-Ends (suc rounds) streak = bind (first_look rounds) λ found.
          choice (not found) (returned (some tt) (λ t h e. cc)) (
            bind (wait_gone-Live rounds 1000) λ o.
              unless_gone-Ends rounds
                (attempt (click_targets F p) >>= act_on F p (webdriver_loop F p fuel rounds) streak)
                o
                (bind (keeps (attempted (targets-Keeps F p (Live rounds) (Live-Lasting rounds))))
                  λ targets.
                    act_on-Ends rounds (webdriver_loop F p fuel rounds) streak targets
                      (webdriver_loop-Ends rounds)))

      chromedp_loop-Ends : (rounds : ℕ) → Ends rounds (chromedp_loop F p fuel rounds)
      unfolding chromedp_loop chromedp_act
      chromedp_loop-Ends zero = record { holds = λ t h. ground arith }
      chromedp_loop-Ends (suc rounds) = bind (first_look rounds) λ found.
          choice (not found) (returned (some tt) (λ t h e. cc)) (
            bind (keeps (attempted (targets-Keeps F p (Live rounds) (Live-Lasting rounds))))
              λ targets.
                bind
                  (wait_gone-Live rounds (
                    challenge_auto_wait_duration F
                      (relevant_challenge_targets F (found_or_none targets))))
                  λ o.
                    unless_gone-Ends rounds
                      (tried (chromedp_click_verify F p (pos 1)) >> chromedp_loop F p fuel rounds) o
                      (bind
                        (keeps (
                          tried-Keeps F p (Live rounds) (Live-Lasting rounds) (
                            chromedp_verify-Keeps F p (Live rounds) (Live-Lasting rounds) (pos 1))))
                        λ _. chromedp_loop-Ends rounds))

      webdriver-Ends : Ends fuel (webdriver_solve_challenge F p fuel)
      unfolding webdriver_solve_challenge
      webdriver-Ends =
          bind
            (bind (keeps (debug-Keeps F p (Live fuel) (Live-Lasting fuel))) λ _. keeps (
              tried-Keeps F p (Live fuel) (Live-Lasting fuel)
                (wiggle-Keeps (Live fuel) (Live-Lasting fuel))))
            λ _. webdriver_loop-Ends fuel 0

      chromedp-Ends : Ends fuel (chromedp_solve_challenge F p fuel)
      unfolding chromedp_solve_challenge
      chromedp-Ends =
          bind (keeps (debug-Keeps F p (Live fuel) (Live-Lasting fuel)))
            λ _. chromedp_loop-Ends fuel

      result :
          (x : Result (Option (Unit {0})) × Trace)
          → Leaves (λ o _. o ≢ none) (λ _. Unit) x
          → x.0 ≢ ok none
      result (ok o, t) h e = h (ok-injective e)
      result (err x, t) h e = cc

      -- When the title of the page cannot be read any more after n calls, since the context of the
      -- request has ended, solveChallenge of the WebDriver and of the CDP backend ends: fuel above n
      -- is never used up, in the loop of the rounds or in that of waitChallengeGone.
      pub solving_ends :
          (t : Trace)
          → ((webdriver_solve_challenge F p fuel t).0 ≢ ok none)
            × ((chromedp_solve_challenge F p fuel t).0 ≢ ok none)
      solving_ends t = (
        result (webdriver_solve_challenge F p fuel t)
            (webdriver-Ends.holds t (ground arith, ground arith)),
        result (chromedp_solve_challenge F p fuel t)
            (chromedp-Ends.holds t (ground arith, ground arith)),
      )
