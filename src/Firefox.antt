-- ===== src/Firefox.antt =====
-- server/browser/geckodriver/browser.go: how the Firefox backend starts its driver; Firefox/Launch has
-- the session and the end. The operating system, the Xvfb helper, the session's capabilities but for
-- the proxy, and BiDi are arguments. The folder for downloads in the profile is left out.
pub mod Launch
use flaresolverr_go.Prelude.{
  ℕ, suc, ◌-◌, String, Bool, true, false, not, ◌||◌, Option, none, some, is_some, List, [], ◌∷◌,
  ◌++◌, ◌==◌, ◌<>◌, trim, is_one_of, if◌then◌else◌, failure, wrap, Result, ok, err,
}
use flaresolverr_go.Prelude.Acts.{Act, ◌>>=◌, ◌>>◌, done, fail, skip, reads, demand, explained}
use flaresolverr_go.Service.Format.{show_ℕ}
use flaresolverr_go.Config.{Proxy, is_blank}
use flaresolverr_go.Factory.{Machine, BrowserConfig, parse_proxy_url}
use flaresolverr_go.Browser.{append_with_env}
use flaresolverr_go.Protocol.Process.{Driver, Host, DriverSpec, start_driver, stop}

-- A geckoBrowser, and beside its fields what it has made: the driver's process, and how many
-- directories, displays and sockets are left.
pub record Gecko : Type 0 where
  pub session_id : String
  pub base_url : String
  pub effective_headless : Bool
  -- b.driver != nil
  pub has_driver : Bool
  pub process : Driver
  -- none for "".
  pub driver_runtime_dir : Option String
  pub profile_dir : Option String
  pub dirs : ℕ
  -- b.xvfbProc != nil
  pub has_xvfb : Bool
  pub displays : ℕ
  pub web_socket_url : String
  -- b.bidiSession != nil
  pub has_bidi : Bool
  pub sockets : ℕ

-- The proxy of a session: of SOCKS with its version, or of HTTP.
pub data Capability : Type 0 where
  socks : String → ℕ → Capability
  http : String → Capability

pub record Surroundings : Type 0 where
  pub config : BrowserConfig
  pub proxy : Option Proxy
  pub host : Host
  pub machine : Machine
  pub windows : Bool
  pub display : String
  pub environ : List String
  -- strings.Fields(os.Getenv("FIREFOX_ARGS"))
  pub firefox_args : List String
  pub free_port : Result ℕ
  pub free_web_socket_port : Result ℕ
  pub start_xvfb : String → Result String
  pub create_transient_dir : String → Result String
  -- POST /session: the session id of the reply and of its value, and webSocketUrl. Its error ends
  -- with the tail of the driver's log.
  pub post_session : List String → Option Capability → Bool → Result (String × (String × String))
  pub dial : String → Result (Unit {0})
  pub install_proxy_auth : Option Proxy → Result (Unit {0})

-- A loop in waitReady can run out of fuel, which is none.
abbrev pub Outcome : Type 0
Outcome = Option (Result (Unit {0})) × Gecko

module _ (e : Surroundings) where
  profile_made : Result String → Act Gecko (Unit {0})
  profile_made (err x) = fail (wrap "create firefox profile dir: " x)
  profile_made (ok dir) = λ g. (ok tt, record g { profile_dir = some dir; dirs = suc g.dirs })

  unfoldable pub prepare_profile_dir : Act Gecko (Unit {0})
  unfolding profile_made
  prepare_profile_dir = λ g.
      if is_some g.profile_dir
      then (ok tt, g)
      else profile_made (e.create_transient_dir "flaresolverr-go-geckoprofile-*") g

  runtime_made : Result String → Act Gecko (Unit {0})
  runtime_made (err x) = fail (wrap "create geckodriver runtime dir: " x)
  runtime_made (ok dir) =
      λ g. (ok tt, record g { driver_runtime_dir = some dir; dirs = suc g.dirs })

  prepare_driver_runtime_dir : Act Gecko (Unit {0})
  unfolding runtime_made
  prepare_driver_runtime_dir = λ g.
      if is_some g.driver_runtime_dir
      then (ok tt, g)
      else runtime_made (e.create_transient_dir "flaresolverr-go-geckodriver-*") g

  displayed : Result String → Act Gecko (Bool × String)
  displayed (err x) = fail x
  displayed (ok display) =
      λ g. (ok (false, display), record g { has_xvfb = true; displays = suc g.displays })

  with_xvfb : Option String → Act Gecko (Bool × String)
  unfolding displayed
  with_xvfb none = done (true, "")
  with_xvfb (some path) = displayed (e.start_xvfb path)

  prepare_headless_mode : Act Gecko (Bool × String)
  unfolding with_xvfb
  prepare_headless_mode =
      if not e.config.headless || e.windows
      then done (e.config.headless, "")
      else if not (e.display == "")
      then done (false, e.display)
      else with_xvfb (e.machine.look_path "Xvfb")

  -- The arguments of the driver, and where its log goes.
  driver_spec : ℕ → ℕ → String → Option String → DriverSpec
  unfolding append_with_env show_ℕ
  driver_spec port ws_port display runtime = record {
    name = "geckodriver";
    path = e.config.driver_path;
    args =
        ("--host"
          ∷ "127.0.0.1"
          ∷ "--port"
          ∷ show_ℕ port
          ∷ "--websocket-port"
          ∷ show_ℕ ws_port
          ∷ "--binary"
          ∷ e.config.browser_path
          ∷ [])
        ++ (if e.config.debug_logging then "--log" ∷ "trace" ∷ [] else []);
    env = if not (display == "") then append_with_env e.environ "DISPLAY" display else e.environ;
    log_path =
        if e.config.debug_logging
        then e.machine.join_path
            ((elim runtime [ none ↦ "" | some dir ↦ dir ]) ∷ "geckodriver.log" ∷ [])
        else "";
    redirect_output = e.config.debug_logging;
  }

  set_headless : Bool → Act Gecko (Unit {0})
  set_headless b = λ g. (ok tt, record g { effective_headless = b })

  -- b.sess.BaseURL = ...
  specified : ℕ → ℕ → String → Act Gecko DriverSpec
  unfolding driver_spec
  specified port ws_port display = λ g. (
    ok (driver_spec port ws_port display g.driver_runtime_dir),
    record g { base_url = "http://127.0.0.1:" <> show_ℕ port },
  )

  -- startDriver, up to w3c.StartDriver.
  prepare_driver : Act Gecko DriverSpec
  unfolding prepare_headless_mode set_headless prepare_driver_runtime_dir specified
  prepare_driver = do
    port ← reads (λ _. explained "reserve geckodriver port: " e.free_port)
    mode ← prepare_headless_mode
    set_headless mode.0
    ws_port ← reads (λ _. explained "reserve geckodriver websocket port: " e.free_web_socket_port)
    if e.config.debug_logging then prepare_driver_runtime_dir else skip
    specified port ws_port mode.1

  unfoldable pub driver_started : Gecko → Option (Result (Unit {0})) × Driver → Outcome
  driver_started g (none, d) = (none, record g { process = d })
  driver_started g (some (err x), d) = (some (err x), record g { process = d })
  driver_started g (some (ok x), d) = (some (ok tt), record g { process = d; has_driver = true })

  launch_driver : ℕ → Result DriverSpec × Gecko → Outcome
  unfolding driver_started
  launch_driver fuel (err x, g) = (some (err x), g)
  launch_driver fuel (ok spec, g) = driver_started g (start_driver e.host fuel spec)

  unfoldable pub start_gecko_driver : ℕ → Gecko → Outcome
  unfolding launch_driver prepare_driver
  start_gecko_driver fuel g = launch_driver fuel (prepare_driver g)
