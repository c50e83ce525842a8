-- ===== src/Pipeline.antt =====
-- server/browser/resolve.go: the steps of a challenge that every backend runs. A backend is the
-- record Page, whose answers depend on the calls before, so that its page may change in between.
pub mod Triples
pub mod Stages
pub mod Order
pub mod Answers
pub mod Access
use flaresolverr_go.Prelude.{
  ℕ, zero, suc, String, Bool, true, false, ◌||◌, Option, none, some, List, [], ◌∷◌, ◌<>◌,
  has_prefix, any, if◌then◌else◌, is_one_of, Error, failure, wrap, Result, ok, err, eqb, ltb,
}
use flaresolverr_go.Prelude.Acts.{Act, after, ◌>>=◌, ◌>>◌, done, fail, skip, explained}
use flaresolverr_go.Prelude.Int.{ℤ, pos, ltb_ℤ, wrap64, scale}
use flaresolverr_go.Service.Types.{Cookie, Solution, BrowserRequest}

-- The calls of the pipeline on a page, and its pauses, in nanoseconds.
pub data Call : Type 0 where
  set_media_blocked : Bool → Call
  navigate : Call
  set_page_cookies : List Cookie → Call
  log_html : Call
  title : Call
  selector_exists : String → Call
  challenge_present : Call
  solve_challenge : Call
  document_ready : Call
  sleep : ℤ → Call
  current_url : Call
  page_user_agent : Call
  page_cookies : String → Call
  document_response : String → Call
  apply_turnstile_token : Call
  read_html : Call
  screenshot : Call

-- The last call first.
abbrev pub Trace : Type 0
Trace = List Call

-- What the page answers to a call after these others. What the pipeline only logs has no answer
-- here. `before_deadline` is the clock test of awaitDocumentReady.
pub record Page : Type 0 where
  pub navigate : Trace → Result (Unit {0})
  pub set_page_cookies : Trace → Result (Unit {0})
  pub title : Trace → Result String
  pub selector_exists : Trace → String → Result Bool
  pub challenge_present : Trace → Result Bool
  pub solve_challenge : Trace → Result (Unit {0})
  pub document_ready : Trace → Result Bool
  pub before_deadline : Trace → Bool
  pub sleep : Trace → ℤ → Result (Unit {0})
  pub current_url : Trace → Result String
  pub page_user_agent : Trace → Result String
  pub page_cookies : Trace → String → Result (List Cookie)
  pub document_response : Trace → String → Result (ℕ × List (String × String))
  pub apply_turnstile_token : Trace → Solution → Result Solution
  pub html : Trace → Result String
  pub screenshot : Trace → Result String
  pub log_html_configured : Bool

-- A part of the pipeline.
abbrev pub Run : Type 0 → Type 0
Run A = Act Trace A

abbrev pub call : {A : Type 0} → Call → String → (Trace → Result A) → Run A
call c prefix answer = λ t. (explained prefix (answer t), c ∷ t)

-- A call whose answer is dropped.
abbrev pub tell : Call → Run (Unit {0})
tell c = λ t. (ok tt, c ∷ t)

abbrev pub access_denied_error : Error
access_denied_error =
    failure
      "Cloudflare has blocked this request. Probably your IP is banned for this site, check in your web browser."

abbrev pub access_denied_titles : List String
access_denied_titles = "Access denied" ∷ "Attention Required! | Cloudflare" ∷ []

abbrev pub access_denied_selectors : List String
access_denied_selectors =
    "div.cf-error-title span.cf-code-label span" ∷ "#cf-error-details div.cf-error-overview h1" ∷ []

module _ (p : Page) where
  set_cookies : String → List Cookie → Run (Unit {0})
  set_cookies url [] = skip
  set_cookies url (c ∷ cs) =
      call (set_page_cookies (c ∷ cs)) "set cookies: " p.set_page_cookies
      >> call navigate "reload after cookies: " p.navigate

  unfoldable pub load : BrowserRequest → Run (Unit {0})
  unfolding set_cookies
  load req =
      tell (set_media_blocked req.disable_media)
      >> call navigate "navigate: " p.navigate
      >> set_cookies req.url req.cookies
      >> (if req.log_html || p.log_html_configured then tell log_html else skip)

  deny_if : Bool → Run (Unit {0})
  deny_if b = if b then fail access_denied_error else skip

  unfoldable pub check_selectors : List String → Run (Unit {0})
  unfolding deny_if
  check_selectors [] = skip
  check_selectors (selector ∷ selectors) =
      (call (selector_exists selector) ("check access denied selector \"" <> (selector <> "\": "))
          (λ t. p.selector_exists t selector)
        >>= deny_if)
      >> check_selectors selectors

  unfoldable pub check_access : Run (Unit {0})
  unfolding deny_if
  check_access =
      (call title "read page title: " p.title >>= λ title.
      deny_if (any (λ denied. has_prefix title denied) access_denied_titles))
      >> check_selectors access_denied_selectors

  clear_if : Bool → Run String
  clear_if false = done "Challenge not detected!"
  clear_if true =
      call solve_challenge "solve challenge: " p.solve_challenge >> done "Challenge solved!"

  unfoldable pub clear_challenge : Run String
  unfolding clear_if
  clear_challenge = call challenge_present "detect challenge: " p.challenge_present >>= clear_if

  -- After the pause of a round: the rest of the loop, unless the context has ended.
  paused : Run (Unit {0}) → Trace → Result (Unit {0}) → Result (Unit {0}) × Trace
  paused rest t (err e) = (ok tt, sleep (pos 200000000) ∷ t)
  paused rest t (ok x) = rest (sleep (pos 200000000) ∷ t)

  -- What follows the probe of a round.
  continue : Run (Unit {0}) → Result Bool × Trace → Result (Unit {0}) × Trace
  unfolding paused
  continue rest (err e, t) = (ok tt, t)
  continue rest (ok true, t) = (ok tt, t)
  continue rest (ok false, t) = paused rest t (p.sleep t (pos 200000000))

  -- Every round sleeps 200 ms, so the deadline of 10 s has passed after 50.
  unfoldable pub await_document_ready : ℕ → Run (Unit {0})
  unfolding continue
  await_document_ready zero t = (ok tt, t)
  await_document_ready (suc fuel) t =
      let rest = await_document_ready fuel in
      if p.before_deadline t
      then continue rest (p.document_ready t, document_ready ∷ t)
      else (ok tt, t)

  unfoldable pub settle : BrowserRequest → Run (Unit {0})
  settle req =
      await_document_ready 50
      >> (if ltb_ℤ (pos 0) req.wait_in_seconds
          then call (sleep (wrap64 (scale req.wait_in_seconds 1000000000))) "wait after challenge: "
              (λ t. p.sleep t (wrap64 (scale req.wait_in_seconds 1000000000)))
          else skip)

  -- The answer of DocumentResponse, where there is one.
  responded : Result (ℕ × List (String × String)) → Solution → Solution
  responded (err e) result = result
  responded (ok (status, [])) result =
      if ltb 0 status then record result { status = status } else result
  responded (ok (status, h ∷ headers)) result =
      if ltb 0 status then record result { status = status; headers = h ∷ headers } else result

  document : String → Solution → Run Solution
  unfolding responded
  document url result t =
      (ok (responded (p.document_response t url) result), document_response url ∷ t)

  new_result : String → List Cookie → String → Solution
  new_result url cookies agent = record {
    url = url;
    status = 200;
    headers = [];
    response = "";
    cookies = cookies;
    user_agent = agent;
    screenshot = "";
    turnstile_token = "";
  }

  unfoldable pub snapshot : Run Solution
  unfolding document new_result
  snapshot = call current_url "read current url: " p.current_url >>= λ url.
      call page_user_agent "read user agent: " p.page_user_agent >>= λ agent.
      call (page_cookies url) "read cookies: " (λ t. p.page_cookies t url) >>= λ cookies.
      document url (new_result url cookies agent) >>= λ result.
      call apply_turnstile_token "read turnstile token: " (λ t. p.apply_turnstile_token t result)

  unfoldable pub add_response : BrowserRequest → Solution → Run Solution
  add_response req result =
      if req.return_only_cookies
      then done result
      else call read_html "read response html: " p.html >>= λ html.
          done (record result { response = html })

  unfoldable pub add_screenshot : BrowserRequest → Solution → Run Solution
  add_screenshot req result =
      if req.return_screenshot
      then (call screenshot "capture screenshot: " p.screenshot >>= λ image.
          done (record result { screenshot = image }))
      else done result

  unfoldable pub resolve_page : BrowserRequest → Run (Solution × String)
  resolve_page req = load req >> check_access >> clear_challenge >>= λ message.
      settle req >> (snapshot >>= add_response req >>= add_screenshot req) >>= λ result.
      done (result, message)
