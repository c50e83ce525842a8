-- ===== src/Config/Load.antt =====
-- server/config.go: init.yaml and the environment on top of the defaults. The parsed file and the
-- environment are arguments; so is strconv.Atoi, of which nothing is assumed.
use flaresolverr_go.Prelude.{
  String, Bool, true, false, List, [], ◌∷◌, Option, none, some, trim, to_lower, ◌==◌, ◌<>◌,
  is_one_of, if◌then◌else◌, or_else, Error, error_text, Result, ok, err,
}
use flaresolverr_go.Prelude.Int.{ℤ, pos, ltb_ℤ}
use flaresolverr_go.Config.{
  Config, Proxy, is_blank, canonical_browser_backend, canonical_log_level, first_non_empty,
  default_config_values, prepare_config,
}

pub record ConfigFile : Type 0 where
  pub host : String
  pub port : ℤ
  pub browser_backend : String
  pub browser_path : String
  pub driver_path : String
  pub driver_cache_dir : String
  pub driver_auto_download : Option Bool
  pub chrome_for_testing_url : String
  pub headless : Option Bool
  pub startup_user_agent : String
  pub log_level : String
  pub log_html : Option Bool
  pub disable_media : Option Bool
  pub prometheus_enabled : Option Bool
  pub prometheus_port : ℤ
  pub default_proxy : Option Proxy

-- if strings.TrimSpace(value) != "" { field = value }
unfoldable pub set_text : String → String → String
set_text value field = if is_blank value then field else value

-- if value > 0 { field = value }
unfoldable pub set_port : ℤ → ℤ → ℤ
set_port value field = if ltb_ℤ (pos 0) value then value else field

unfoldable pub set_proxy : Option Proxy → Option Proxy → Option Proxy
set_proxy none field = field
set_proxy (some p) field = if is_blank p.url then field else some p

unfoldable pub apply_config_file : Config → ConfigFile → Config
apply_config_file cfg file = record cfg {
  host = set_text file.host cfg.host;
  port = set_port file.port cfg.port;
  browser_backend =
      if is_blank file.browser_backend
      then cfg.browser_backend
      else canonical_browser_backend file.browser_backend;
  browser_path = set_text file.browser_path cfg.browser_path;
  driver_path = set_text file.driver_path cfg.driver_path;
  driver_cache_dir = set_text file.driver_cache_dir cfg.driver_cache_dir;
  driver_auto_download = or_else file.driver_auto_download cfg.driver_auto_download;
  chrome_for_testing_url = set_text file.chrome_for_testing_url cfg.chrome_for_testing_url;
  headless = or_else file.headless cfg.headless;
  startup_user_agent = set_text file.startup_user_agent cfg.startup_user_agent;
  log_level = if is_blank file.log_level then cfg.log_level else canonical_log_level file.log_level;
  log_html = or_else file.log_html cfg.log_html;
  disable_media = or_else file.disable_media cfg.disable_media;
  prometheus_enabled = or_else file.prometheus_enabled cfg.prometheus_enabled;
  prometheus_port = set_port file.prometheus_port cfg.prometheus_port;
  default_proxy = set_proxy file.default_proxy cfg.default_proxy;
}

-- os.Getenv: "" for a variable that is not set.
abbrev pub Env : Type 0
Env = String → String

unfoldable pub getenv : Env → String → String → String
getenv env key fallback = if env key == "" then fallback else env key

parse_bool : String → Bool → Bool
parse_bool value fallback =
    if is_one_of (to_lower value) ("1" ∷ "true" ∷ "yes" ∷ "on" ∷ [])
    then true
    else if is_one_of (to_lower value) ("0" ∷ "false" ∷ "no" ∷ "off" ∷ [])
    then false
    else fallback

unfoldable pub getenv_bool : Env → String → Bool → Bool
unfolding parse_bool
getenv_bool env key fallback = if env key == "" then fallback else parse_bool (env key) fallback

unfoldable pub proxy_from_env : Env → Option Proxy
proxy_from_env env =
    if env "PROXY_URL" == ""
    then none
    else some (record {
      url = env "PROXY_URL";
      username = env "PROXY_USERNAME";
      password = env "PROXY_PASSWORD";
    })

unfoldable pub override_proxy : Option Proxy → Option Proxy → Option Proxy
override_proxy none field = field
override_proxy (some p) field = some p

-- The search of readConfigFile: the first path that exists decides. A path is missing, unreadable
-- or not YAML, or it holds a file.
pub data Read : Type 0 where
  missing : Read
  unusable : Error → Read
  parsed : ConfigFile → Read

unfoldable pub read_config_file :
    (String → Read) → List String → Result (Option ConfigFile) × String
read_config_file disk [] = (ok none, "")
read_config_file disk (path ∷ paths) =
    let rest = read_config_file disk paths in
    elim (disk path) [
      | missing ↦ rest
      | unusable e ↦ (err e, path)
      | parsed file ↦ (ok (some file), path)
    ]

unfoldable pub resolve_config_path : (String → Read) → List String → Option String
resolve_config_path disk [] = none
resolve_config_path disk (first ∷ paths) =
    let path = (read_config_file disk (first ∷ paths)).1 in
    some (if path == "" then first else path)

-- strconv.Atoi: `none` for an error.
module _ (atoi : String → Option ℤ) where
  unfoldable pub getenv_int : Env → String → ℤ → ℤ
  getenv_int env key fallback =
      if env key == "" then fallback else or_else (atoi (env key)) fallback

  unfoldable pub apply_env_config : Env → Config → Config
  apply_env_config env cfg = record cfg {
    host = getenv env "HOST" cfg.host;
    port = getenv_int env "PORT" cfg.port;
    browser_backend =
        if trim (env "BROWSER_BACKEND") == ""
        then cfg.browser_backend
        else canonical_browser_backend (trim (env "BROWSER_BACKEND"));
    browser_path = first_non_empty (env "BROWSER_PATH" ∷ cfg.browser_path ∷ []);
    driver_path = first_non_empty (env "DRIVER_PATH" ∷ cfg.driver_path ∷ []);
    driver_cache_dir = first_non_empty (env "DRIVER_CACHE_DIR" ∷ cfg.driver_cache_dir ∷ []);
    driver_auto_download = getenv_bool env "DRIVER_AUTO_DOWNLOAD" cfg.driver_auto_download;
    chrome_for_testing_url =
        first_non_empty (env "CHROME_FOR_TESTING_URL" ∷ cfg.chrome_for_testing_url ∷ []);
    headless = getenv_bool env "HEADLESS" cfg.headless;
    startup_user_agent = first_non_empty (env "STARTUP_USER_AGENT" ∷ cfg.startup_user_agent ∷ []);
    log_html = getenv_bool env "LOG_HTML" cfg.log_html;
    disable_media = getenv_bool env "DISABLE_MEDIA" cfg.disable_media;
    prometheus_enabled = getenv_bool env "PROMETHEUS_ENABLED" cfg.prometheus_enabled;
    prometheus_port = getenv_int env "PROMETHEUS_PORT" cfg.prometheus_port;
    log_level = first_non_empty (env "LOG_LEVEL" ∷ cfg.log_level ∷ []);
    default_proxy = override_proxy (proxy_from_env env) cfg.default_proxy;
  }

  abbrev after_file : Result (Option ConfigFile) → Config × List String
  after_file (ok none) = (default_config_values, [])
  after_file (ok (some file)) = (apply_config_file default_config_values file, [])
  after_file (err e) = (default_config_values, ("init.yaml ignored: " <> error_text e) ∷ [])

  unfoldable pub load_config : (String → Read) → Env → List String → Config × List String
  load_config disk env paths =
      let (cfg, warnings) = after_file (read_config_file disk paths).0 in
      (prepare_config (apply_env_config env cfg), warnings)
