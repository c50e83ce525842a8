-- ===== src/Config/Save.antt =====
-- server/config.go: the file that a configuration is written to.
use flaresolverr_go.Prelude.{Option, none, some, if◌then◌else◌}
use flaresolverr_go.Config.{Config, Proxy, is_blank, canonical_log_level}
use flaresolverr_go.Config.Load.{ConfigFile}

unfoldable pub file_proxy : Option Proxy → Option Proxy
file_proxy none = none
file_proxy (some p) = if is_blank p.url then none else some p

unfoldable pub config_file_from_config : Config → ConfigFile
config_file_from_config cfg = record {
  host = cfg.host;
  port = cfg.port;
  browser_backend = cfg.browser_backend;
  browser_path = cfg.browser_path;
  driver_path = cfg.driver_path;
  driver_cache_dir = cfg.driver_cache_dir;
  driver_auto_download = some cfg.driver_auto_download;
  chrome_for_testing_url = cfg.chrome_for_testing_url;
  headless = some cfg.headless;
  startup_user_agent = cfg.startup_user_agent;
  log_level = canonical_log_level cfg.log_level;
  log_html = some cfg.log_html;
  disable_media = some cfg.disable_media;
  prometheus_enabled = some cfg.prometheus_enabled;
  prometheus_port = cfg.prometheus_port;
  default_proxy = file_proxy cfg.default_proxy;
}
