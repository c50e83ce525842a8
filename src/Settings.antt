-- ===== src/Settings.antt =====
-- server/settings.go: the payload of the settings page, its validation, and the guard in front of
-- the requests that change state. net/url and mime are arguments, of which nothing is assumed.
pub mod Restart
pub mod Guard
use flaresolverr_go.Prelude.{
  ℕ, String, Bool, true, false, not, ◌&&◌, ◌||◌, Option, none, some, [], ◌∷◌, trim, to_lower,
  equal_fold, ◌==◌, is_one_of, if◌then◌else◌, failure, Result, ok, err, ◌>>=◌, ◌>>◌,
}
use flaresolverr_go.Prelude.Int.{ℤ, pos, leb_ℤ, ltb_ℤ, eqb_ℤ}
use flaresolverr_go.Config.{
  Config, Proxy, canonical_browser_backend, canonical_log_level, with_defaults,
}

-- What the code reads of a *url.URL.
pub record Url : Type 0 where
  pub scheme : String
  pub host : String

-- url.Parse: `none` for an error.
abbrev pub ParseUrl : Type 0
ParseUrl = String → Option Url

pub record Payload : Type 0 where
  pub host : String
  pub port : ℤ
  pub browser_backend : String
  pub browser_path : String
  pub driver_path : String
  pub driver_cache_dir : String
  pub driver_auto_download : Bool
  pub chrome_for_testing_url : String
  pub headless : Bool
  pub startup_user_agent : String
  pub log_level : String
  pub log_html : Bool
  pub disable_media : Bool
  pub prometheus_enabled : Bool
  pub prometheus_port : ℤ
  pub proxy_url : String
  pub proxy_username : String
  pub proxy_password : String

abbrev proxy_text : Option Proxy → (Proxy → String) → String
proxy_text none field = ""
proxy_text (some p) field = field p

unfoldable pub payload_from_config : Config → Payload
payload_from_config cfg = record {
  host = cfg.host;
  port = cfg.port;
  browser_backend = canonical_browser_backend cfg.browser_backend;
  browser_path = cfg.browser_path;
  driver_path = cfg.driver_path;
  driver_cache_dir = cfg.driver_cache_dir;
  driver_auto_download = cfg.driver_auto_download;
  chrome_for_testing_url = cfg.chrome_for_testing_url;
  headless = cfg.headless;
  startup_user_agent = cfg.startup_user_agent;
  log_level = canonical_log_level cfg.log_level;
  log_html = cfg.log_html;
  disable_media = cfg.disable_media;
  prometheus_enabled = cfg.prometheus_enabled;
  prometheus_port = cfg.prometheus_port;
  proxy_url = proxy_text cfg.default_proxy (λ p. p.url);
  proxy_username = proxy_text cfg.default_proxy (λ p. p.username);
  proxy_password = proxy_text cfg.default_proxy (λ p. p.password);
}

-- if !test { return fmt.Errorf(message) }
abbrev pub require : Bool → String → Result (Unit {0})
require true message = ok tt
require false message = err (failure message)

abbrev pub is_port : ℤ → Bool
is_port n = not (leb_ℤ n (pos 0) || ltb_ℤ (pos 65535) n)

-- An absolute URL with this scheme.
abbrev pub has_scheme : String → Option Url → Bool
has_scheme scheme none = false
has_scheme scheme (some u) = not (u.host == "") && equal_fold u.scheme scheme

abbrev is_absolute : Option Url → Bool
is_absolute none = false
is_absolute (some u) = not (u.scheme == "") && not (u.host == "")

-- The level, where it is spelled in one of the ways that are accepted.
checked_level : String → String → Result String
checked_level level spelled =
    if not (spelled == "") && not (level == spelled)
    then (if spelled == "warning"
        then ok "warn"
        else if is_one_of spelled ("debug" ∷ "info" ∷ "warn" ∷ "error" ∷ [])
        then ok level
        else err (failure "unsupported log level"))
    else ok level

is_backend : String → String → Bool
is_backend backend spelled = (spelled == "") || not (backend == "auto") || (spelled == "auto")

module _ (parse_url : ParseUrl) where
  proxy_of : Payload → Result (Option Proxy)
  proxy_of p =
      if trim p.proxy_url == ""
      then ok none
      else if is_absolute (parse_url (trim p.proxy_url))
      then ok (
          some (record {
            url = trim p.proxy_url;
            username = trim p.proxy_username;
            password = p.proxy_password;
          }))
      else err (failure "proxy url must be an absolute URL")

  -- The checks, in their order: the level and the proxy of a payload that passes them.
  validate : Payload → Result (String × Option Proxy)
  validate p = do
    require (not (trim p.host == "")) "host is required"
    require (is_port p.port) "port must be between 1 and 65535"
    require (is_port p.prometheus_port) "prometheus port must be between 1 and 65535"
    require (not (eqb_ℤ p.port p.prometheus_port))
        "prometheus port must differ from the server port"
    require
        ((trim p.chrome_for_testing_url == "")
          || has_scheme "https" (parse_url (trim p.chrome_for_testing_url)))
        "chrome for testing url must be an absolute https URL"
    level ← checked_level (canonical_log_level p.log_level) (to_lower (trim p.log_level))
    require
        (is_backend (canonical_browser_backend p.browser_backend)
          (to_lower (trim p.browser_backend)))
        "unsupported browser backend"
    proxy ← proxy_of p
    ok (level, proxy)

  unfoldable pub to_config : Payload → Config → Result Config
  unfolding checked_level is_backend proxy_of validate
  to_config p base = do
    (level, proxy) ← validate p
    ok (record (with_defaults base) {
      host = trim p.host;
      port = p.port;
      browser_backend = canonical_browser_backend p.browser_backend;
      browser_path = trim p.browser_path;
      driver_path = trim p.driver_path;
      driver_cache_dir = trim p.driver_cache_dir;
      driver_auto_download = p.driver_auto_download;
      chrome_for_testing_url = trim p.chrome_for_testing_url;
      headless = p.headless;
      startup_user_agent = trim p.startup_user_agent;
      log_level = level;
      log_html = p.log_html;
      disable_media = p.disable_media;
      prometheus_enabled = p.prometheus_enabled;
      prometheus_port = p.prometheus_port;
      logger = none;
      default_proxy = proxy;
    })

-- The headers of a request, and its Host.
pub record Headers : Type 0 where
  pub content_type : String
  pub sec_fetch_site : String
  pub origin : String
  pub host : String

abbrev is_host : String → Option Url → Bool
is_host host none = false
is_host host (some u) = equal_fold u.host host

abbrev media_is : String → Option String → Bool
media_is type none = false
media_is type (some t) = t == type

-- mime.ParseMediaType: the media type, or `none` for an error.
module _ (parse_media_type : String → Option String) (parse_url : ParseUrl) where
  unfoldable pub guard_state_changing_request : Headers → Result (Unit {0})
  guard_state_changing_request h = do
    require (media_is "application/json" (parse_media_type h.content_type))
        "Content-Type must be application/json"
    require (is_one_of h.sec_fetch_site ("" ∷ "same-origin" ∷ "none" ∷ []))
        "cross-origin request rejected"
    require ((trim h.origin == "") || is_host h.host (parse_url (trim h.origin)))
        "cross-origin request rejected"
