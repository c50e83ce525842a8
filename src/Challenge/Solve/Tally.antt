-- ===== src/Challenge/Solve/Tally.antt =====
-- server/browser/geckodriver/browser.go: how often the Firefox backend waits and looks for the frame
-- of the checkbox.
use flaresolverr_go.Prelude.{
  ℕ, suc, ◌+◌, ◌≤◌, String, Bool, true, false, not, ◌∷◌, [], ◌==◌, eqb, arith, if◌then◌else◌,
  Result, ok, err,
}
use flaresolverr_go.Prelude.Acts.{skip}
use flaresolverr_go.Prelude.Acts.Triples.{Leaves, bind, choice, attempted, both}
use flaresolverr_go.Challenge.{
  Step, query, click_at, run_script, sleep, enter_frame, leave_frame, move_mouse, release_actions,
  Trace, Drive, Tab, tried, challenge_present,
}
use flaresolverr_go.Challenge.Targets.{Floats}
use flaresolverr_go.Challenge.Kept.{
  Keeps, Lasting, call-Keeps, pause-Keeps, done-Keeps, tried-Keeps, if_ok-Keeps, present-Keeps,
}
use flaresolverr_go.Challenge.Solve.{
  gecko_mouse_wiggle, clicked_and_checked, is_replaced_or_true, found_then, in_frame, within_frame,
  entering, click_turnstile_checkbox,
}

abbrev is_second : Step → Bool
is_second (sleep d) = eqb d 1000
is_second c = false

abbrev is_frame_query : Step → Bool
is_frame_query (query selector) = selector == "iframe[src*=\"challenges.cloudflare.com\"]"
is_frame_query c = false

-- The waits of one second in a trace.
pub seconds : Trace → ℕ
seconds [] = 0
seconds (c ∷ t) = let n = seconds t in if is_second c then suc n else n

-- The searches for the frame of the checkbox.
pub frame_queries : Trace → ℕ
frame_queries [] = 0
frame_queries (c ∷ t) = let n = frame_queries t in if is_frame_query c then suc n else n

-- There were at least so many.
unfoldable pub Tally : ℕ → ℕ → Trace → Type 0
Tally a k t = (a ≤ seconds t) × (k ≤ frame_queries t)

Tally-Lasting : (a k : ℕ) → Lasting (Tally a k)
unfolding Lasting Tally seconds frame_queries
Tally-Lasting a k c t h = (ground arith, ground arith)

pub Tally-weaker : (a b k l : ℕ) (t : Trace) → b ≤ a → l ≤ k → Tally a k t → Tally b l t
unfolding Tally
Tally-weaker a b k l t g h x = (ground arith, ground arith)

-- The state that is left, with or without an error.
pub left : {A : Type 0} (P : Trace → Type 0) (x : Result A × Trace) → Leaves (λ _. P) P x → P x.1
left P (ok a, t) h = h
left P (err e, t) h = h

module _ (F : Floats) (p : Tab (F.Float)) (a k : ℕ) where
  abbrev T : Trace → Type 0
  T = Tally a k

  abbrev lasts : Lasting T
  lasts = Tally-Lasting a k

  pub second-Tally : (t : Trace) → Tally a k t → Tally (a + 1) k (sleep 1000 ∷ t)
  unfolding Tally seconds frame_queries
  second-Tally t h = (ground arith, ground arith)

  pub look-Tally : (t : Trace) → Tally a k t → Tally a k (challenge_present F p t).1
  look-Tally t h = left T (challenge_present F p t) ((present-Keeps F p T lasts).holds t h)

  query-Tally :
      (t : Trace)
      → Tally a k t
      → Tally a (k + 1) (query "iframe[src*=\"challenges.cloudflare.com\"]" ∷ t)
  unfolding Tally seconds frame_queries
  query-Tally t h = (ground arith, ground arith)

  checked-Keeps : (checkbox : String) → Keeps T (clicked_and_checked F p checkbox)
  unfolding clicked_and_checked
  checked-Keeps checkbox =
      bind (attempted (call-Keeps F p T lasts click_at λ t. p.click_element t checkbox)) λ r.
        if_ok-Keeps F p T lasts r
          (bind
            (bind (tried-Keeps F p T lasts (pause-Keeps F p T lasts 500))
              λ _. attempted (call-Keeps F p T lasts run_script λ t. p.element_selected t checkbox))
            λ selected. done-Keeps F p T lasts (is_replaced_or_true F p selected))
          (done-Keeps F p T lasts false)

  found_then-Keeps :
      (go : String → Drive Bool) (r : Result String)
      → ((element : String) → Keeps T (go element))
      → Keeps T (found_then F p go r)
  unfolding found_then
  found_then-Keeps go (err e) h = done-Keeps F p T lasts false
  found_then-Keeps go (ok element) h =
      choice (element == "") (done-Keeps F p T lasts false) (h element)

  in_frame-Keeps : Keeps T (in_frame F p)
  unfolding in_frame
  in_frame-Keeps =
      bind
        (attempted (
          call-Keeps F p T lasts (query "input[type=checkbox]")
            λ t. p.find_through_shadow t "input[type=checkbox]"))
        λ r. found_then-Keeps (clicked_and_checked F p) r checked-Keeps

  within-Keeps : (b : Bool) → Keeps T (within_frame F p b)
  unfolding within_frame Lasting
  within-Keeps b = choice (not b) (done-Keeps F p T lasts false) (
      bind in_frame-Keeps
        λ clicked. record { holds = λ t h. lasts (leave_frame (p.leave_frame t)) t h })

  entering-Keeps : (frame : String) → Keeps T (entering F p frame)
  unfolding entering Lasting
  entering-Keeps frame = record {
    holds = λ t h.
        (within-Keeps (p.enter_frame t frame)).holds (enter_frame (p.enter_frame t frame) ∷ t)
          (lasts (enter_frame (p.enter_frame t frame)) t h);
  }

  wiggle-Keeps : Keeps T (gecko_mouse_wiggle F p)
  unfolding gecko_mouse_wiggle Lasting
  wiggle-Keeps = record {
    holds = λ t h.
        both T (gecko_mouse_wiggle F p t)
          (lasts release_actions (move_mouse ∷ t) (lasts move_mouse t h));
  }

  pub wiggled-Tally :
      (b : Bool) (t : Trace)
      → Tally a k t
      → Tally a k ((if b then tried (gecko_mouse_wiggle F p) else skip) t).1
  unfolding gecko_mouse_wiggle Lasting
  wiggled-Tally true t h = lasts release_actions (move_mouse ∷ t) (lasts move_mouse t h)
  wiggled-Tally false t h = h

-- An attempt that clicks has one search more.
pub clicked-Tally :
    (F : Floats) (p : Tab (F.Float)) (a k : ℕ) (b : Bool) (t : Trace)
    → Tally a k t
    → Tally a
        (if b then k + 1 else k)
        ((if b then tried (click_turnstile_checkbox F p) else skip) t).1
unfolding click_turnstile_checkbox
clicked-Tally F p a k false t h = h
clicked-Tally F p a k true t h =
    let selector : String = "iframe[src*=\"challenges.cloudflare.com\"]" in
    left (Tally a (k + 1))
      (found_then F p (entering F p) (p.find_through_shadow t selector) (query selector ∷ t))
      ((found_then-Keeps F p a (k + 1) (entering F p) (p.find_through_shadow t selector)
          (entering-Keeps F p a (k + 1))).holds
        (query selector ∷ t) (query-Tally F p a k t h))
