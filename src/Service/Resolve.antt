-- ===== src/Service/Resolve.antt =====
-- server/service.go: resolveChallenge, and the user agent that the service learns.
pub mod Upkeep
use flaresolverr_go.Prelude.{
  ℕ, String, Bool, true, false, ◌&&◌, ◌||◌, List, ◌∷◌, Option, none, some, is_some, is_none,
  or_else, trim, ◌==◌, ◌<>◌, if◌then◌else◌, Error, deadline_exceeded, failure, error_text, wrap,
  Result, ok, err, not,
}
use flaresolverr_go.Prelude.Int.{ℤ, pos, wrap64, scale}
use flaresolverr_go.Config.{Config, Proxy, with_defaults}
use flaresolverr_go.Session.Store.{Store, session_closed}
use flaresolverr_go.Session.Calls.{get}
use flaresolverr_go.Service.Types.{
  Request, Service, World, Method, Solution, BrowserRequest, Resolution, proxy_or,
}
use flaresolverr_go.Service.Format.{strings_replace, resolve_timeout_error}

unfoldable pub store_user_agent : String → Service → Service
store_user_agent value s =
    if trim value == ""
    then s
    else if s.user_agent == ""
    then record s { user_agent = trim value }
    else s

abbrev learned : Result String → Service → Service
learned (ok agent) s = store_user_agent agent s
learned (err e) s = s

unfoldable pub store_user_agent_from_browser : World → Option ℕ → Service → Service
store_user_agent_from_browser w none s = s
store_user_agent_from_browser w (some b) s =
    if not (s.user_agent == "") then s else learned (w.agent_of b) s

unfoldable pub runtime_browser_config : Service → Config
runtime_browser_config s = record (with_defaults s.cfg) { startup_user_agent = s.user_agent }

-- The image, CSS and font block list: what the request says, or else the configuration.
abbrev media_blocked : Option Bool → Bool → Bool
media_blocked asked configured =
    (is_some asked && or_else asked false) || (is_none asked && configured)

unfoldable pub browser_request : Config → Request → Method → BrowserRequest
browser_request cfg req method = record {
  url = req.url;
  method = method;
  post_data = req.post_data;
  cookies = req.cookies;
  max_timeout_ms = req.max_timeout;
  return_only_cookies = req.return_only_cookies;
  return_screenshot = req.return_screenshot;
  wait_in_seconds = req.wait_in_seconds;
  disable_media = media_blocked req.disable_media cfg.disable_media;
  tabs_till_verify = req.tabs_till_verify;
  log_html = cfg.log_html;
}

-- Client.Resolve, and what is made of its result.
resolve_failure : World → Request → Error → Error
resolve_failure w req (deadline_exceeded context) =
    resolve_timeout_error w.format_elapsed_seconds req.max_timeout (pos w.elapsed)
resolve_failure w req (failure text) =
    failure ("Error solving the challenge. " <> strings_replace text)

abbrev remember : Option Solution → Service → Service
remember none s = s
remember (some solution) s = store_user_agent solution.user_agent s

abbrev Outcome : Type 0
Outcome = Result (Option Solution × String) × Service

finish : World → Request → Service → Result Resolution → Outcome
unfolding resolve_failure
finish w req s (err e) = (err (resolve_failure w req e), s)
finish w req s (ok res) = (ok (res.result, res.message), remember res.result s)

-- The browser of a session, under its mutex. The model answers for a session with no browser,
-- which create never hands out, as for one that is gone.
on_browser : World → Request → Method → Service → Option ℕ → Outcome
unfolding finish
on_browser w req method s none = (err session_closed, s)
on_browser w req method s (some b) = finish w req s (w.resolve b (browser_request s.cfg req method))

in_session : World → Request → Method → Service → Result (ℕ × Bool) × Store → Outcome
unfolding on_browser
in_session w req method s (err e, m) = (err e, record s { store = m })
in_session w req method s (ok (r, fresh), m) =
    if (m.heap r).closed
    then (err session_closed, record s { store = m })
    else on_browser w req method (record s { store = m }) (m.heap r).browser

-- A browser for this request alone, which `defer client.Close()` closes.
closing : ℕ → Outcome → Outcome
closing b (o, s) = (o, record s { closed = b ∷ s.closed })

ephemeral : World → Request → Method → Service → Result ℕ → Outcome
unfolding closing finish
ephemeral w req method s (err e) = (err (wrap "create ephemeral browser: " e), s)
ephemeral w req method s (ok b) = closing b (
    finish w req (record s { opened = b ∷ s.opened })
      (w.resolve b (browser_request s.cfg req method)))

-- time.Duration(minutes) * time.Minute
abbrev minutes_ns : ℤ → ℤ
minutes_ns minutes = wrap64 (scale minutes 60000000000)

unfoldable pub resolve_challenge : World → Request → Method → Service → Outcome
unfolding in_session ephemeral
resolve_challenge w req method s =
    if req.session == ""
    then ephemeral w req method s (
        w.factory (runtime_browser_config s)
          (proxy_or req.proxy (runtime_browser_config s).default_proxy))
    else in_session w req method s (
        get w.factory (some s.user_agent) w.random req.session (minutes_ns req.session_ttl_minutes)
          w.now s.store)
