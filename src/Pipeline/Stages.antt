-- ===== src/Pipeline/Stages.antt =====
-- server/browser/resolve.go: the phases of the pipeline, and what each part of it keeps when the
-- calls of its phase keep it.
use flaresolverr_go.Prelude.{
  ℕ, zero, suc, String, Bool, true, false, List, [], ◌∷◌, ◌≡◌, refl, Error, Result, ok, err, ◌||◌,
  if◌then◌else◌,
}
use flaresolverr_go.Prelude.Int.{pos, ltb_ℤ}
use flaresolverr_go.Service.Types.{Cookie, Solution, BrowserRequest}
use flaresolverr_go.Pipeline.{
  paused, Call, set_media_blocked, navigate, set_page_cookies, log_html, title, selector_exists,
  challenge_present, solve_challenge, document_ready, sleep, current_url, page_user_agent,
  page_cookies, document_response, apply_turnstile_token, read_html, screenshot, Trace, Page, Run,
  done, fail, call, tell, access_denied_error, access_denied_selectors, set_cookies, load, deny_if,
  check_selectors, check_access, clear_if, clear_challenge, continue, await_document_ready, settle,
  document, snapshot, add_response, add_screenshot,
}
use flaresolverr_go.Prelude.Acts.Triples.{Leaves, Triple, bind, choice}
use flaresolverr_go.Pipeline.Triples.{called}

-- Loading the page, the test for a ban, the challenge, the pauses, and reading the page.
abbrev pub phase : Call → ℕ
phase (set_media_blocked b) = 0
phase navigate = 0
phase (set_page_cookies cs) = 0
phase log_html = 0
phase title = 1
phase (selector_exists s) = 1
phase challenge_present = 2
phase solve_challenge = 2
phase document_ready = 3
phase (sleep d) = 3
phase current_url = 4
phase page_user_agent = 4
phase (page_cookies url) = 4
phase (document_response url) = 4
phase apply_turnstile_token = 4
phase read_html = 4
phase screenshot = 4

-- I is kept by every call of phase n.
abbrev pub Stepping : (Trace → Type 0) → ℕ → Type 0
Stepping I n = (c : Call) → phase c ≡ n → (t : Trace) → I t → I (c ∷ t)

module _ (p : Page) (I E : Trace → Type 0) (weak : (t : Trace) → I t → E t) where
  abbrev Keeps : {A : Type 0} → Run A → Type 0
  Keeps {A} m = Triple I m (λ (a : A). I) E

  at_call :
      {A : Type 0} {n : ℕ}
      → Stepping I n
      → (c : Call) → phase c ≡ n
      → (prefix : String) (answer : Trace → Result A) → Keeps (call c prefix answer)
  at_call h c e prefix answer =
      called c prefix answer (λ t i. let i' = h c e t i in (λ a. i', weak (c ∷ t) i'))

  at_tell : {n : ℕ} → Stepping I n → (c : Call) → phase c ≡ n → Keeps (tell c)
  at_tell h c e = record { holds = λ t i. h c e t i }

  at_done : {A : Type 0} (a : A) → Keeps (done a)
  at_done a = record { holds = λ t i. i }

  at_fail : {A : Type 0} (e : Error) → Keeps (fail {A = A} e)
  at_fail e = record { holds = λ t i. weak t i }

  module _ (h : Stepping I 0) where
    pub load-Keeps : (req : BrowserRequest) → Keeps (load p req)
    unfolding load set_cookies
    load-Keeps req =
        bind
          (bind
            (bind (at_tell h (set_media_blocked req.disable_media) refl)
              (λ _. at_call h navigate refl "navigate: " p.navigate))
            (λ _. cookies req.cookies))
          (λ _.
            choice (req.log_html || p.log_html_configured) (at_tell h log_html refl) (at_done tt))
      where
        cookies : (cs : List Cookie) → Keeps (set_cookies p req.url cs)
        cookies [] = at_done tt
        cookies (c ∷ cs) =
            bind (at_call h (set_page_cookies (c ∷ cs)) refl "set cookies: " p.set_page_cookies)
              (λ _. at_call h navigate refl "reload after cookies: " p.navigate)

  module _ (h : Stepping I 1) where
    deny-Keeps : (b : Bool) → Keeps (deny_if p b)
    unfolding deny_if
    deny-Keeps b = choice b (at_fail access_denied_error) (at_done tt)

    selectors-Keeps : (ss : List String) → Keeps (check_selectors p ss)
    unfolding check_selectors
    selectors-Keeps [] = at_done tt
    selectors-Keeps (s ∷ ss) =
        bind (bind (at_call h (selector_exists s) refl _ (λ t. p.selector_exists t s)) deny-Keeps)
          (λ _. selectors-Keeps ss)

    pub check-Keeps : Keeps (check_access p)
    unfolding check_access
    check-Keeps =
        bind (bind (at_call h title refl "read page title: " p.title) (λ _. deny-Keeps _))
          (λ _. selectors-Keeps access_denied_selectors)

  module _ (h : Stepping I 2) where
    pub clear-Keeps : Keeps (clear_challenge p)
    unfolding clear_challenge clear_if
    clear-Keeps =
        bind (at_call h challenge_present refl "detect challenge: " p.challenge_present) go
      where
        go : (b : Bool) → Keeps (clear_if p b)
        go false = at_done _
        go true =
            bind (at_call h solve_challenge refl "solve challenge: " p.solve_challenge)
              (λ _. at_done _)

  module _ (h : Stepping I 3) where
    continue-Keeps :
        (rest : Run (Unit {0}))
        → Keeps rest
        → (x : Result Bool) (t : Trace) → I t
        → Leaves (λ (a : Unit {0}). I) E (continue p rest (x, t))
    unfolding continue
    continue-Keeps rest g (err e) t u = u
    continue-Keeps rest g (ok true) t u = u
    continue-Keeps rest g (ok false) t u =
        elim (p.sleep t (pos 200000000))
          as (λ x. Leaves (λ (a : Unit {0}). I) E (paused p rest t x)) [
            | err e ↦ (h (sleep (pos 200000000)) refl t u)
            | ok x ↦ g.holds _ (h (sleep (pos 200000000)) refl t u)
          ]

    round-Keeps :
        (fuel : ℕ)
        → Keeps (await_document_ready p fuel)
        → (b : Bool) (t : Trace) → I t
        → Leaves
            (λ (a : Unit {0}). I)
            E
            (if b
              then continue p (await_document_ready p fuel) (p.document_ready t, document_ready ∷ t)
              else (ok tt, t))
    round-Keeps fuel g true t u =
        continue-Keeps (await_document_ready p fuel) g (p.document_ready t) (document_ready ∷ t)
          (h document_ready refl t u)
    round-Keeps fuel g false t u = u

    await-Keeps : (fuel : ℕ) → Keeps (await_document_ready p fuel)
    unfolding await_document_ready
    await-Keeps zero = record { holds = λ t u. u }
    await-Keeps (suc fuel) = record {
      holds = λ t u. round-Keeps fuel (await-Keeps fuel) (p.before_deadline t) t u;
    }

    pub settle-Keeps : (req : BrowserRequest) → Keeps (settle p req)
    unfolding settle
    settle-Keeps req = bind (await-Keeps 50) (λ _.
        choice (ltb_ℤ (pos 0) req.wait_in_seconds)
          (at_call h (sleep _) refl "wait after challenge: " (λ t. p.sleep t _)) (at_done tt))

  module _ (h : Stepping I 4) where
    document-Keeps : (url : String) (result : Solution) → Keeps (document p url result)
    unfolding document
    document-Keeps url result = record { holds = λ t u. (h (document_response url) refl t u) }

    pub snapshot-Keeps : Keeps (snapshot p)
    unfolding snapshot
    snapshot-Keeps = bind (at_call h current_url refl "read current url: " p.current_url) (λ url.
        bind (at_call h page_user_agent refl "read user agent: " p.page_user_agent) (λ agent.
          bind (at_call h (page_cookies url) refl "read cookies: " (λ t. p.page_cookies t url))
            (λ cookies. bind (document-Keeps url _) (λ result.
              at_call h apply_turnstile_token refl "read turnstile token: "
                (λ t. p.apply_turnstile_token t result)))))

    pub response-Keeps :
        (req : BrowserRequest) (result : Solution) → Keeps (add_response p req result)
    unfolding add_response
    response-Keeps req result =
        choice req.return_only_cookies (at_done result)
          (bind (at_call h read_html refl "read response html: " p.html) (λ html. at_done _))

    pub screenshot-Keeps :
        (req : BrowserRequest) (result : Solution) → Keeps (add_screenshot p req result)
    unfolding add_screenshot
    screenshot-Keeps req result =
        choice req.return_screenshot
          (bind (at_call h screenshot refl "capture screenshot: " p.screenshot)
            (λ image. at_done _))
          (at_done result)
