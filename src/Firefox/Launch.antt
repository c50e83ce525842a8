-- ===== src/Firefox/Launch.antt =====
-- server/browser/geckodriver/browser.go: the session of the Firefox backend, Close, and NewGeckoDriver.
pub mod Kept
use flaresolverr_go.Prelude.{
  ℕ, suc, ◌-◌, String, Bool, true, false, not, ◌||◌, Option, none, some, is_some, List, [], ◌∷◌,
  ◌++◌, ◌==◌, trim, is_one_of, if◌then◌else◌, failure, wrap, Result, ok, err,
}
use flaresolverr_go.Prelude.Acts.{Act, ◌>>=◌, ◌>>◌, fail, skip, reads, demand}
use flaresolverr_go.Config.{Proxy, is_blank}
use flaresolverr_go.Factory.{parse_proxy_url}
use flaresolverr_go.Protocol.Process.{Driver, stop}
use flaresolverr_go.Firefox.{
  Gecko, Capability, socks, http, Surroundings, Outcome, prepare_profile_dir, start_gecko_driver,
}

module _ (e : Surroundings) where
  proxy_capability : String × String → Capability
  proxy_capability (scheme, host_port) =
      if is_one_of scheme ("socks4" ∷ "socks5" ∷ [])
      then socks host_port (if scheme == "socks4" then 4 else 5)
      else http host_port

  capability_of : Result (String × String) → Result (Option Capability)
  unfolding proxy_capability
  capability_of (err x) = err (wrap "configure proxy: " x)
  capability_of (ok parsed) = ok (some (proxy_capability parsed))

  -- buildProxyCapability, where there is a proxy.
  build_proxy_capability : Option Proxy → Result (Option Capability)
  unfolding capability_of
  build_proxy_capability none = ok none
  build_proxy_capability (some p) =
      if is_blank p.url then ok none else capability_of (parse_proxy_url e.machine p.url)

  needs_bidi : Option Proxy → Bool
  needs_bidi none = false
  needs_bidi (some p) = not (is_blank p.username)

  firefox_args : Gecko → List String
  firefox_args g =
      (elim g.profile_dir [ none ↦ [] | some dir ↦ "-profile" ∷ dir ∷ [] ])
      ++ ((if g.effective_headless then "-headless" ∷ [] else []) ++ e.firefox_args)

  set_web_socket_url : String → Act Gecko (Unit {0})
  set_web_socket_url url = do
    (λ g. (ok tt, record g { web_socket_url = url }))
    demand (not (url == "")) (
        failure
          "geckodriver did not return a webSocketUrl, so proxy credentials cannot be supplied")

  session_made : Bool → Result (String × (String × String)) → Act Gecko (Unit {0})
  unfolding set_web_socket_url
  session_made needs (err x) = fail (wrap "create geckodriver session: " x)
  session_made needs (ok (top, (id, url))) =
      let session = if trim top == "" then trim id else trim top in
      demand (not (session == "")) (failure "geckodriver session id missing")
      >> (λ g. (ok tt, record g { session_id = session }))
      >> (if needs then set_web_socket_url (trim url) else skip)

  unfoldable pub create_session : Act Gecko (Unit {0})
  unfolding build_proxy_capability firefox_args session_made needs_bidi
  create_session = do
    args ← reads (λ g. ok (firefox_args g))
    proxy ← reads (λ _. build_proxy_capability e.proxy)
    session_made (needs_bidi e.proxy) (e.post_session args proxy (needs_bidi e.proxy))

  auth_installed : Result (Unit {0}) → Act Gecko (Unit {0})
  auth_installed (err x) =
      λ g. (err (wrap "proxy authentication: " x), record g { sockets = g.sockets - 1 })
  auth_installed (ok y) = λ g. (ok tt, record g { has_bidi = true })

  dialled : Result (Unit {0}) → Act Gecko (Unit {0})
  unfolding auth_installed
  dialled (err x) = fail x
  dialled (ok y) =
      λ g. auth_installed (e.install_proxy_auth e.proxy) (record g { sockets = suc g.sockets })

  unfoldable pub enable_proxy_auth : Act Gecko (Unit {0})
  unfolding dialled
  enable_proxy_auth =
      λ g. if g.web_socket_url == "" then (ok tt, g) else dialled (e.dial g.web_socket_url) g

  close_bidi : Gecko → Gecko
  close_bidi g = record g {
    has_bidi = false;
    sockets = if g.has_bidi then g.sockets - 1 else g.sockets;
  }

  -- b.sess.Delete, whose request is not waited for longer than five seconds.
  delete_session : Gecko → Gecko
  delete_session g = record g {
    session_id = if is_blank g.session_id || is_blank g.base_url then g.session_id else "";
  }

  stop_driver : Gecko → Gecko
  unfolding stop
  stop_driver g = record g { process = if g.has_driver then stop e.host g.process else g.process }

  remove_driver_runtime_dir : Gecko → Gecko
  remove_driver_runtime_dir g = record g {
    driver_runtime_dir = none;
    dirs = if is_some g.driver_runtime_dir then g.dirs - 1 else g.dirs;
  }

  -- keepProfileDir is never set.
  cleanup_profile_dir : Gecko → Gecko
  cleanup_profile_dir g = record g {
    profile_dir = none;
    dirs = if is_some g.profile_dir then g.dirs - 1 else g.dirs;
  }

  stop_display : Gecko → Gecko
  stop_display g = record g {
    has_xvfb = false;
    displays = if g.has_xvfb then g.displays - 1 else g.displays;
  }

  unfoldable pub close_gecko : Gecko → Gecko
  unfolding close_bidi delete_session stop_driver remove_driver_runtime_dir cleanup_profile_dir
      stop_display
  close_gecko g = stop_display (
      cleanup_profile_dir (remove_driver_runtime_dir (stop_driver (delete_session (close_bidi g)))))

  -- if err := ...; err != nil { _ = b.Close(); return nil, err }
  unless_failed : Result (Unit {0}) × Gecko → Outcome
  unfolding close_gecko
  unless_failed (err x, g) = (some (err x), close_gecko g)
  unless_failed (ok x, g) = (some (ok tt), g)

  -- The next step, where the one before had no error.
  or_close : (Gecko → Result (Unit {0}) × Gecko) → Outcome → Outcome
  unfolding unless_failed
  or_close next (none, g) = (none, g)
  or_close next (some (err x), g) = (some (err x), g)
  or_close next (some (ok x), g) = unless_failed (next g)

  -- After startDriver.
  closing_start : Outcome → Outcome
  unfolding close_gecko
  closing_start (none, g) = (none, g)
  closing_start (some (err x), g) = (some (err x), close_gecko g)
  closing_start (some (ok x), g) = (some (ok tt), g)

  profiled : ℕ → Result (Unit {0}) × Gecko → Outcome
  unfolding or_close closing_start start_gecko_driver create_session enable_proxy_auth
  profiled fuel (err x, g) = (some (err x), g)
  profiled fuel (ok x, g) =
      or_close enable_proxy_auth
        (or_close create_session (closing_start (start_gecko_driver e fuel g)))

  abbrev no_process : Driver
  no_process = record { running = false; has_command = false; log_open = false; acts = [] }

  abbrev new_gecko : Gecko
  new_gecko = record {
    session_id = "";
    base_url = "";
    effective_headless = false;
    has_driver = false;
    process = no_process;
    driver_runtime_dir = none;
    profile_dir = none;
    dirs = 0;
    has_xvfb = false;
    displays = 0;
    web_socket_url = "";
    has_bidi = false;
    sockets = 0;
  }

  unfoldable pub new_gecko_driver : ℕ → Outcome
  unfolding profiled prepare_profile_dir
  new_gecko_driver fuel =
      if is_blank e.config.driver_path
      then (some (err (failure "geckodriver executable not found")), new_gecko)
      else if is_blank e.config.browser_path
      then (some (err (failure "firefox/camoufox binary not configured")), new_gecko)
      else profiled fuel (prepare_profile_dir e new_gecko)
