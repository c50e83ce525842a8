-- ===== src/Service/Types.antt =====
-- The data of server/types.go and server/browser/types.go, the state of the service, and what the
-- service calls that is not its own: browsers, the clock, random identifiers, net/url, and the
-- printing of a measured time.
use flaresolverr_go.Prelude.{ℕ, String, Bool, List, [], Option, none, some, Result}
use flaresolverr_go.Prelude.Int.{ℤ}
use flaresolverr_go.Config.{Config, Proxy}
use flaresolverr_go.Settings.{ParseUrl}
use flaresolverr_go.Session.Store.{Store, new_session_store}
use flaresolverr_go.Session.Calls.{Factory}

pub record Cookie : Type 0 where
  pub name : String
  pub value : String
  pub domain : String
  pub path : String

-- V1Request, with the cookies as the browser gets them. Of `headers` the code only asks whether
-- they are there.
pub record Request : Type 0 where
  pub cmd : String
  pub cookies : List Cookie
  pub max_timeout : ℤ
  pub proxy : Option Proxy
  pub session : String
  pub session_ttl_minutes : ℤ
  pub url : String
  pub post_data : String
  pub return_only_cookies : Bool
  pub return_screenshot : Bool
  pub wait_in_seconds : ℤ
  pub disable_media : Option Bool
  pub tabs_till_verify : Option ℤ

-- ChallengeResolutionResult
pub record Solution : Type 0 where
  pub url : String
  pub status : ℕ
  pub headers : List (String × String)
  pub response : String
  pub cookies : List Cookie
  pub user_agent : String
  pub screenshot : String
  pub turnstile_token : String

-- V1Response
pub record Response : Type 0 where
  pub status : String
  pub message : String
  pub session : String
  pub sessions : Option (List String)
  pub start_timestamp : ℕ
  pub end_timestamp : ℕ
  pub version : String
  pub solution : Option Solution

abbrev pub empty_response : Response
empty_response = record {
  status = "";
  message = "";
  session = "";
  sessions = none;
  start_timestamp = 0;
  end_timestamp = 0;
  version = "";
  solution = none;
}

pub data Method : Type 0 where
  http_get http_post : Method

-- browser.Request
pub record BrowserRequest : Type 0 where
  pub url : String
  pub method : Method
  pub post_data : String
  pub cookies : List Cookie
  pub max_timeout_ms : ℤ
  pub return_only_cookies : Bool
  pub return_screenshot : Bool
  pub wait_in_seconds : ℤ
  pub disable_media : Bool
  pub tabs_till_verify : Option ℤ
  pub log_html : Bool

-- browser.Result, which a client returns with no error.
pub record Resolution : Type 0 where
  pub result : Option Solution
  pub message : String

-- `opened` and `closed` are the browsers that were launched for one request, and those of them
-- that were closed again, the last one first.
pub record Service : Type 0 where
  pub cfg : Config
  pub store : Store
  pub user_agent : String
  pub opened : List ℕ
  pub closed : List ℕ

-- `now` and `elapsed` are in nanoseconds.
pub record World : Type 0 where
  pub factory : Factory
  pub resolve : ℕ → BrowserRequest → Result Resolution
  pub agent_of : ℕ → Result String
  pub parse_url : ParseUrl
  pub format_elapsed_seconds : ℤ → String
  pub random : String
  pub now : ℕ
  pub elapsed : ℕ
  pub start_ms : ℕ
  pub end_ms : ℕ

-- if proxy == nil { proxy = fallback }
abbrev pub proxy_or : Option Proxy → Option Proxy → Option Proxy
proxy_or none fallback = fallback
proxy_or (some p) fallback = some p

unfoldable pub new_service : Config → Service
new_service cfg = record {
  cfg = cfg;
  store = new_session_store cfg;
  user_agent = "";
  opened = [];
  closed = [];
}
