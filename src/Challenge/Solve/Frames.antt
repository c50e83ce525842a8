-- ===== src/Challenge/Solve/Frames.antt =====
-- server/browser/geckodriver/browser.go: the session addresses the page again after a look into the
-- frame of the widget.
use flaresolverr_go.Prelude.{
  ℕ, zero, suc, ◌+◌, String, Bool, true, false, not, ◌==◌, List, [], ◌∷◌, any, equal_fold, ◌≡◌,
  refl, if◌then◌else◌, Result, ok, err,
}
use flaresolverr_go.Prelude.Acts.{done, attempt}
use flaresolverr_go.Prelude.Acts.Triples.{
  Leaves, Triple, bind, choice, returned, kept, attempted, unfailing,
}
use flaresolverr_go.Challenge.{
  query, run_script, read_title, click_at, enter_frame, leave_frame, Trace, Drive, Tab, call, tried,
  if_ok, pause, any_selector, challenge_titles, challenge_selectors, challenge_present,
}
use flaresolverr_go.Challenge.Targets.{Floats}
use flaresolverr_go.Challenge.Solve.{
  gecko_mouse_wiggle, clicked_and_checked, is_replaced_or_true, found_then, in_frame, within_frame,
  entering, click_turnstile_checkbox, clicks_at, wiggles_at, gecko_round, gecko_loop,
  gecko_solve_challenge,
}

-- The session addresses a frame: it was entered and not left since.
unfoldable pub is_inside : Trace → Bool
is_inside [] = false
is_inside (enter_frame true ∷ t) = true
is_inside (leave_frame true ∷ t) = false
is_inside (c ∷ t) = is_inside t

-- The session addresses the page.
abbrev pub IsOutside : Trace → Type 0
IsOutside t = is_inside t ≡ false

module _ (F : Floats) (p : Tab (F.Float)) where
  abbrev Returns : {A : Type 0} → Drive A → Type 0
  Returns {A} m = Triple IsOutside m (λ (_ : A). IsOutside) IsOutside

  abbrev Works : {A : Type 0} → Drive A → Type 0
  Works {A} m = Triple (λ _. Unit) m (λ (_ : A) _. Unit) (λ _. ⊥)

  pause-Returns : (d : ℕ) → Returns (pause F p d)
  unfolding is_inside
  pause-Returns d = kept λ t h. h

  selector-Returns : (selectors : List String) → Returns (any_selector F p selectors)
  unfolding any_selector is_inside
  selector-Returns [] = returned false (λ t h. h)
  selector-Returns (s ∷ ss) =
      bind {m = call (query s) (λ t. p.selector_exists t s)} (kept λ t h. h)
        λ exists. choice exists (returned true (λ t h. h)) (selector-Returns ss)

  present-Returns : Returns (challenge_present F p)
  unfolding challenge_present is_inside
  present-Returns = bind {m = call read_title p.title} (kept λ t h. h) λ title.
      choice (any (λ known. equal_fold title known) challenge_titles) (returned true (λ t h. h))
        (selector-Returns challenge_selectors)

  tried-Works : {A : Type 0} (m : Drive A) → Works (tried m)
  tried-Works m = record { holds = λ t h. tt }

  attempt-Works : {A : Type 0} (m : Drive A) → Works (attempt m)
  attempt-Works m = record { holds = λ t h. tt }

  done-Works : {A : Type 0} (a : A) → Works (done a)
  done-Works a = returned a (λ t h. tt)

  if_ok-Works :
      {A B : Type 0} (r : Result A) {m k : Drive B} → Works m → Works k → Works (if_ok r m k)
  if_ok-Works (ok a) h j = h
  if_ok-Works (err e) h j = j

  checked-Works : (checkbox : String) → Works (clicked_and_checked F p checkbox)
  unfolding clicked_and_checked
  checked-Works checkbox = bind (attempt-Works (call click_at λ t. p.click_element t checkbox)) λ r.
      if_ok-Works r
        (bind
          (bind (tried-Works (pause F p 500))
            λ _. attempt-Works (call run_script λ t. p.element_selected t checkbox))
          λ selected. done-Works (is_replaced_or_true F p selected))
        (done-Works false)

  found_then-Works :
      (go : String → Drive Bool) (r : Result String)
      → ((element : String) → Works (go element))
      → Works (found_then F p go r)
  unfolding found_then
  found_then-Works go (err e) h = done-Works false
  found_then-Works go (ok element) h = choice (element == "") (done-Works false) (h element)

  in_frame-Works : Works (in_frame F p)
  unfolding in_frame
  in_frame-Works =
      bind
        (attempt-Works
          (call (query "input[type=checkbox]") λ t. p.find_through_shadow t "input[type=checkbox]"))
        λ r. found_then-Works (clicked_and_checked F p) r checked-Works

  module _ (leaves : (t : Trace) → p.leave_frame t ≡ true) where
    left : (t : Trace) → IsOutside (leave_frame (p.leave_frame t) ∷ t)
    unfolding is_inside
    left t = rw (leaves t) refl

    within-Outside :
        (t : Trace) → Leaves (λ (_ : Bool). IsOutside) IsOutside (within_frame F p true t)
    unfolding within_frame
    within-Outside t =
        (bind (unfailing in_frame-Works) λ clicked. record { holds = λ u _. left u }).holds t tt

    entered-Outside :
        (b : Bool) (t : Trace)
        → IsOutside t
        → Leaves (λ (_ : Bool). IsOutside) IsOutside (within_frame F p b (enter_frame b ∷ t))
    unfolding within_frame is_inside
    entered-Outside true t h = within-Outside (enter_frame true ∷ t)
    entered-Outside false t h = h

    found-Returns : (r : Result String) → Returns (found_then F p (entering F p) r)
    unfolding found_then entering
    found-Returns (err e) = returned false (λ t h. h)
    found-Returns (ok frame) =
        choice (frame == "") (returned false (λ t h. h))
          (record { holds = λ t h. entered-Outside (p.enter_frame t frame) t h })

    checkbox-Returns : Returns (click_turnstile_checkbox F p)
    unfolding click_turnstile_checkbox is_inside
    checkbox-Returns =
        bind
          {m = attempt (
            call (query "iframe[src*=\"challenges.cloudflare.com\"]")
              λ t. p.find_through_shadow t "iframe[src*=\"challenges.cloudflare.com\"]")}
          (kept λ t h. h) found-Returns

    wiggle-Returns : Returns (gecko_mouse_wiggle F p)
    unfolding gecko_mouse_wiggle is_inside
    wiggle-Returns = kept λ t h. h

    tried-Returns : {A : Type 0} {m : Drive A} → Returns m → Returns (tried m)
    tried-Returns h = bind (attempted h) λ _. returned tt (λ t k. k)

    loop-Returns : (left attempts clicks : ℕ) → Returns (gecko_loop F p left attempts clicks)
    unfolding gecko_loop gecko_round
    loop-Returns zero attempts clicks = kept λ t h. h
    loop-Returns (suc left) attempts clicks =
        bind (bind (pause-Returns 1000) λ _. present-Returns) λ found.
          choice (not found) (returned tt (λ t h. h)) (
            bind
              (bind
                (choice (clicks_at attempts) (tried-Returns checkbox-Returns)
                  (returned tt (λ t h. h)))
                λ _.
                  choice (wiggles_at attempts) (tried-Returns wiggle-Returns)
                    (returned tt (λ t h. h)))
              λ _.
                loop-Returns left (attempts + 1)
                  (if clicks_at attempts then clicks + 1 else clicks))

    solve-Returns : Returns (gecko_solve_challenge F p)
    unfolding gecko_solve_challenge
    solve-Returns = bind (tried-Returns wiggle-Returns) λ _. loop-Returns 30 0 0

    ended : (x : Result (Unit {0}) × Trace) → Leaves (λ _. IsOutside) IsOutside x → IsOutside x.1
    ended (ok u, t) h = h
    ended (err e, t) h = h

    -- Where a frame can always be left, a session of the Firefox backend that addresses the page
    -- addresses it again when solveChallenge has ended, with or without an error: each frame of a
    -- widget that is entered is left, whatever fails inside it.
    pub gecko_solve_challenge-IsOutside :
        (t : Trace) → IsOutside t → IsOutside (gecko_solve_challenge F p t).1
    gecko_solve_challenge-IsOutside t h =
        ended (gecko_solve_challenge F p t) (solve-Returns.holds t h)
