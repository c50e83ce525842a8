-- ===== src/Tests/Protocols.antt =====
-- Runs of the WebDriver protocol and of the life of a driver.
use flaresolverr_go.Prelude.{
  true, false, none, some, List, [], ◌∷◌, ◌≡◌, ◌≤◌, ◌==◌, length, leb, if◌then◌else◌, is_some,
  failure, ok, err, arith,
}
use flaresolverr_go.Protocol.{Wire, find_through_shadow_dom}
use flaresolverr_go.Protocol.Bounds.{IsBounded, find_through_shadow_dom-IsBounded}
use flaresolverr_go.Protocol.Process.{Act, Host, DriverSpec, start_driver}
use flaresolverr_go.Protocol.Process.Life.{IsStarted, start_driver-IsStarted}

-- A driver that finds nothing for the selector, and one host, with a shadow root, for "*".
abbrev wire : Wire
wire = record {
  err_prefix = "webdriver";
  session_id = "s";
  send = λ sent r. ok (record { status_code = 200; body = ok r.selector });
  envelope = λ bytes. ok bytes;
  error_value = λ bytes. none;
  references = λ raw. if raw == "*" then ok ("host" ∷ []) else ok [];
  shadow_reference = λ raw. ok "root";
}

find_through_shadow_dom-IsBounded_example :
    IsBounded wire "input" 0 (find_through_shadow_dom wire "input" [])
find_through_shadow_dom-IsBounded_example = find_through_shadow_dom-IsBounded wire "input" []

-- A driver that never answers, with a deadline after four acts, and that ends only when it is killed.
abbrev host : Host
host = record {
  create_log = ok tt;
  start = λ spec. ok tt;
  probe = λ acts. err (failure "connection refused");
  expired =
      λ acts. if leb 4 (length acts) then some (failure "context deadline exceeded") else none;
  exits = λ acts. false;
}

abbrev geckodriver : DriverSpec
geckodriver = record {
  name = "geckodriver";
  path = "/usr/bin/geckodriver";
  args = [];
  env = [];
  log_path = "/tmp/geckodriver.log";
  redirect_output = true;
}

expires : (acts : List Act) → 4 ≤ length acts → is_some (host.expired acts) ≡ true
expires acts h = ground arith

start_driver-IsStarted_example : IsStarted host (start_driver host 5 geckodriver)
start_driver-IsStarted_example = start_driver-IsStarted host 4 expires 5 (omega arith) geckodriver
