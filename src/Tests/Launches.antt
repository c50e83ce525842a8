-- ===== src/Tests/Launches.antt =====
-- Runs of the launch of a Firefox backend.
use flaresolverr_go.Prelude.{
  true, false, none, some, List, [], ◌≡◌, ◌≤◌, length, leb, if◌then◌else◌, is_some, failure, ok,
  err, arith,
}
use flaresolverr_go.Factory.{Machine, BrowserConfig}
use flaresolverr_go.Protocol.Process
use flaresolverr_go.Protocol.Process.{Host}
use flaresolverr_go.Firefox.{Surroundings}
use flaresolverr_go.Firefox.Launch.{new_gecko_driver}
use flaresolverr_go.Firefox.Launch.Kept.Settled.{IsSettled, new_gecko_driver-IsSettled}

abbrev machine : Machine
machine = record {
  look_path = λ name. some "/usr/bin/Xvfb";
  home = none;
  file_exists = λ path. true;
  looks_like_gecko_install = λ path. true;
  base = λ path. path;
  join_path = λ parts. "/tmp/runtime/geckodriver.log";
  quote = λ s. s;
  parse_url = λ s. ok (record { scheme = "http"; hostname = "proxy"; port = "8080" });
  geckodriver_path = λ cfg. ok "";
  chromedriver_path = λ cfg. ok "";
  start = λ backend c asked. ok 7;
}

-- The driver answers its third probe, and is killed in the end.
abbrev host : Host
host = record {
  create_log = ok tt;
  start = λ spec. ok tt;
  probe = λ acts. if leb 4 (length acts) then ok tt else err (failure "connection refused");
  expired =
      λ acts. if leb 6 (length acts) then some (failure "context deadline exceeded") else none;
  exits = λ acts. false;
}

abbrev browser_config : BrowserConfig
browser_config = record {
  browser_path = "/opt/firefox";
  driver_path = "/opt/geckodriver";
  headless = true;
  startup_user_agent = "";
  log_html = false;
  debug_logging = true;
  disable_media = false;
  driver_cache_dir = "";
  driver_auto_download = false;
  chrome_for_testing_url = "";
  logger = none;
}

-- The proxy's credentials are refused, after everything else was made.
abbrev surroundings : Surroundings
surroundings = record {
  config = browser_config;
  proxy = some (record { url = "http://proxy:8080"; username = "u"; password = "p" });
  host = host;
  machine = machine;
  windows = false;
  display = "";
  environ = [];
  firefox_args = [];
  free_port = ok 4444;
  free_web_socket_port = ok 4445;
  start_xvfb = λ path. ok ":99";
  create_transient_dir = λ prefix. ok "/tmp/made";
  post_session = λ args proxy needs. ok ("id", ("", "ws://127.0.0.1:4445/session/id"));
  dial = λ url. ok tt;
  install_proxy_auth = λ proxy. err (failure "no intercept");
}

expires :
    (acts : List Process.Act) → 6 ≤ length acts → is_some (surroundings.host.expired acts) ≡ true
expires acts h = ground arith

new_gecko_driver-IsSettled_example : IsSettled surroundings (new_gecko_driver surroundings 7)
new_gecko_driver-IsSettled_example =
    new_gecko_driver-IsSettled surroundings 6 expires 7 (omega arith)
