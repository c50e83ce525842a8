-- ===== src/Config.antt =====
-- server/config.go: the configuration, its defaults and the canonical spellings of its values.
-- The children: reading init.yaml and the environment (Load), writing it back (Save), and what is
-- proved of them.
pub mod Names
pub mod Load
pub mod Save
pub mod Defaults
pub mod Precedence
pub mod Yaml
pub mod RoundTrip
use flaresolverr_go.Prelude.{
  ℕ, ◌≤◌, String, Bool, true, false, List, [], ◌∷◌, Option, none, some, trim, to_lower, ◌==◌,
  is_one_of, leb, if◌then◌else◌,
}
use flaresolverr_go.Prelude.Int.{ℤ, pos, is_zero}

-- browser/types.go: Proxy
pub record Proxy : Type 0 where
  pub url : String
  pub username : String
  pub password : String

-- slog.Level, in the order of its numbers -4, 0, 4, 8.
pub data Level : Type 0 where
  debug info warn error : Level

abbrev pub rank : Level → ℕ
rank debug = 0
rank info = 1
rank warn = 2
rank error = 3

-- `logger` is the level of the handler behind the logger, or `none` for a nil logger.
pub record Config : Type 0 where
  pub host : String
  pub port : ℤ
  pub browser_backend : String
  pub browser_path : String
  pub driver_path : String
  pub driver_cache_dir : String
  pub driver_auto_download : Bool
  pub chrome_for_testing_url : String
  pub headless : Bool
  pub startup_user_agent : String
  pub log_level : String
  pub log_html : Bool
  pub debug_logging : Bool
  pub disable_media : Bool
  pub prometheus_enabled : Bool
  pub prometheus_port : ℤ
  pub default_proxy : Option Proxy
  pub version : String
  pub logger : Option Level

-- strings.TrimSpace(s) == ""
abbrev pub is_blank : String → Bool
is_blank s = trim s == ""

unfoldable pub first_non_empty : List String → String
first_non_empty [] = ""
first_non_empty (s ∷ ss) = if is_blank s then first_non_empty ss else s

unfoldable pub canonical_browser_backend : String → String
canonical_browser_backend raw =
    if is_one_of (to_lower (trim raw)) ("geckodriver" ∷ "firefox" ∷ "camoufox" ∷ [])
    then "geckodriver"
    else if is_one_of (to_lower (trim raw)) ("chromedriver" ∷ "chrome" ∷ "chromium" ∷ [])
    then "chromedriver"
    else "auto"

unfoldable pub canonical_log_level : String → String
canonical_log_level raw =
    if to_lower (trim raw) == "debug"
    then "debug"
    else if is_one_of (to_lower (trim raw)) ("warn" ∷ "warning" ∷ [])
    then "warn"
    else if to_lower (trim raw) == "error"
    then "error"
    else "info"

unfoldable pub parse_log_level : String → Level
parse_log_level raw =
    if canonical_log_level raw == "debug"
    then debug
    else if is_one_of (canonical_log_level raw) ("warn" ∷ "warning" ∷ [])
    then warn
    else if canonical_log_level raw == "error"
    then error
    else info

-- server/driver_manager.go
abbrev pub default_chrome_for_testing_base_url : String
default_chrome_for_testing_base_url = "https://googlechromelabs.github.io/chrome-for-testing"

-- internal/buildinfo: the version that a build with no link-time flag reports.
abbrev pub buildinfo_version : String
buildinfo_version = "1.0.6"

unfoldable pub default_config_values : Config
unfolding first_non_empty
default_config_values = record {
  host = "0.0.0.0";
  port = pos 8191;
  browser_backend = "auto";
  browser_path = "";
  driver_path = "";
  driver_cache_dir = "";
  driver_auto_download = true;
  chrome_for_testing_url = default_chrome_for_testing_base_url;
  headless = true;
  startup_user_agent = "";
  log_level = "info";
  log_html = false;
  debug_logging = false;
  disable_media = false;
  prometheus_enabled = false;
  prometheus_port = pos 8192;
  default_proxy = none;
  version = first_non_empty (buildinfo_version ∷ "dev" ∷ []);
  logger = none;
}

unfoldable pub default_text : String → String → String
default_text value fallback = if value == "" then fallback else value

unfoldable pub default_int : ℤ → ℤ → ℤ
default_int value fallback = if is_zero value then fallback else value

unfoldable pub default_proxy_of : Option Proxy → Option Proxy → Option Proxy
default_proxy_of none fallback = fallback
default_proxy_of (some p) fallback = some p

unfoldable pub with_defaults : Config → Config
unfolding default_config_values
with_defaults c = record c {
  host = default_text c.host default_config_values.host;
  port = default_int c.port default_config_values.port;
  browser_backend = default_text c.browser_backend default_config_values.browser_backend;
  browser_path = default_text c.browser_path default_config_values.browser_path;
  driver_path = default_text c.driver_path default_config_values.driver_path;
  driver_cache_dir = default_text c.driver_cache_dir default_config_values.driver_cache_dir;
  chrome_for_testing_url =
      default_text c.chrome_for_testing_url default_config_values.chrome_for_testing_url;
  log_level = default_text c.log_level default_config_values.log_level;
  prometheus_port = default_int c.prometheus_port default_config_values.prometheus_port;
  version = default_text c.version default_config_values.version;
  default_proxy = default_proxy_of c.default_proxy default_config_values.default_proxy;
}

-- `with_defaults`, then the level, the debug flag and the logger that follow from the level.
set_level : Config → Config
set_level c = record c {
  log_level = canonical_log_level c.log_level;
  debug_logging = leb (rank (parse_log_level (canonical_log_level c.log_level))) (rank debug);
  logger = some (parse_log_level (canonical_log_level c.log_level));
}

unfoldable pub prepare_config : Config → Config
unfolding set_level
prepare_config cfg = set_level (with_defaults cfg)
