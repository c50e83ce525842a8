-- ===== src/Settings/Restart.antt =====
-- Settings that were accepted survive a restart.
use flaresolverr_go.Prelude.{
  String, subst, ok-injective, Bool, true, false, not, ◌≡◌, refl, Option, none, some, List, [],
  trim, ◌==◌, Result, ok, >>=-eq-ok, arith, eq_iff,
}
use flaresolverr_go.Prelude.Text.Trim.Laws.{trim_idem}
use flaresolverr_go.Prelude.Int.{ℤ, pos, ltb_ℤ}
use flaresolverr_go.Config.{
  Config, Proxy, is_blank, canonical_browser_backend, default_config_values, with_defaults,
  default_text, prepare_config,
}
use flaresolverr_go.Config.Names.{canonical_browser_backend-IsBackend}
use flaresolverr_go.Config.Load.{ConfigFile, resolve_config_path, load_config}
use flaresolverr_go.Config.Yaml.{Node, Document, tree, placed, render_config_yaml}
use flaresolverr_go.Config.Yaml.Holds.{Decodes, IsMergeable}
use flaresolverr_go.Config.Save.{config_file_from_config}
use flaresolverr_go.Config.RoundTrip.{Plain, PlainProxy, IsSaveable, reads, load_config-save}
use flaresolverr_go.Settings.{Payload, ParseUrl, to_config, require, is_port, proxy_of, validate}

require-eq-ok : (b : Bool) (s : String) {u : Unit {0}} → require b s ≡ ok u → b ≡ true
require-eq-ok true s h = refl
require-eq-ok false s h = cc

trim-Plain : (s : String) → Plain (trim s)
trim-Plain s = ground (arith, trim_idem s, eq_iff (trim s) "")

is_blank-trim : (s : String) → not (trim s == "") ≡ true → is_blank (trim s) ≡ false
is_blank-trim s h = ground (arith, trim_idem s)

is_port-pos : (n : ℤ) → is_port n ≡ true → ltb_ℤ (pos 0) n ≡ true
is_port-pos n h = ground arith

proxy_of-PlainProxy :
    (parse_url : ParseUrl) (p : Payload) (o : Option Proxy)
    → proxy_of parse_url p ≡ ok o
    → PlainProxy o
unfolding proxy_of
proxy_of-PlainProxy parse_url p none h = tt
proxy_of-PlainProxy parse_url p (some q) h = ground (arith, trim_idem p.proxy_url)

-- A configuration with the settings of an accepted payload.
abbrev accepted : Payload → Config → String → Option Proxy → Config
accepted p base level proxy = record base {
  host = trim p.host;
  port = p.port;
  browser_backend = canonical_browser_backend p.browser_backend;
  browser_path = trim p.browser_path;
  driver_path = trim p.driver_path;
  driver_cache_dir = trim p.driver_cache_dir;
  driver_auto_download = p.driver_auto_download;
  chrome_for_testing_url = trim p.chrome_for_testing_url;
  headless = p.headless;
  startup_user_agent = trim p.startup_user_agent;
  log_level = level;
  log_html = p.log_html;
  disable_media = p.disable_media;
  prometheus_enabled = p.prometheus_enabled;
  prometheus_port = p.prometheus_port;
  logger = none;
  default_proxy = proxy;
}

accepted-IsSaveable :
    (p : Payload) (base : Config) (level : String) (proxy : Option Proxy)
    → base.version ≡ default_config_values.version
    → not (trim p.host == "") ≡ true
    → is_port p.port ≡ true
    → is_port p.prometheus_port ≡ true
    → PlainProxy proxy
    → IsSaveable (accepted p base level proxy)
accepted-IsSaveable p base level proxy ver h1 h2 h3 h8 = record {
  host = is_blank-trim p.host h1;
  port = is_port-pos p.port h2;
  prometheus_port = is_port-pos p.prometheus_port h3;
  browser_backend = canonical_browser_backend-IsBackend p.browser_backend;
  browser_path = trim-Plain p.browser_path;
  driver_path = trim-Plain p.driver_path;
  driver_cache_dir = trim-Plain p.driver_cache_dir;
  chrome_for_testing_url = trim-Plain p.chrome_for_testing_url;
  startup_user_agent = trim-Plain p.startup_user_agent;
  default_proxy = h8;
  version = ver;
}

version-with_defaults :
    (base : Config)
    → base.version ≡ default_config_values.version
    → (with_defaults base).version ≡ default_config_values.version
unfolding with_defaults default_text
version-with_defaults base e = ground (arith, eq_iff base.version "")

validate_lem :
    (parse_url : ParseUrl) (p : Payload) (level : String) (proxy : Option Proxy)
    → validate parse_url p ≡ ok (level, proxy)
    → (not (trim p.host == "") ≡ true)
      × (is_port p.port ≡ true)
      × (is_port p.prometheus_port ≡ true)
      × (proxy_of parse_url p ≡ ok proxy)
unfolding validate
validate_lem parse_url p level proxy h = ground arith

pub to_config-IsSaveable :
    (parse_url : ParseUrl) (p : Payload) (base cfg : Config)
    → base.version ≡ default_config_values.version
    → to_config parse_url p base ≡ ok cfg
    → IsSaveable cfg
unfolding to_config
to_config-IsSaveable parse_url p base cfg ver e =
    let ((level, proxy), h, e') = >>=-eq-ok (validate parse_url p) _ e in
    let (h1, h2, h3, h8) = validate_lem parse_url p level proxy h in
    subst IsSaveable (ok-injective e') (
      accepted-IsSaveable p (with_defaults base) level proxy (version-with_defaults base ver) h1 h2
        h3 (proxy_of-PlainProxy parse_url p proxy h8))

-- Settings that the page accepts and saves come back at the next start: with the same build and
-- nothing in the environment, every field of the configuration is the one that was applied. They
-- are merged into the init.yaml that the search finds, which has no key twice, no merge key, and no
-- scalar for a proxy, where it is a mapping; and of the YAML decoder it is assumed that it reads
-- such mappings into the struct.
pub saved_settings_survive :
    (decode : Node → Result ConfigFile) (parse_url : ParseUrl) (atoi : String → Option ℤ)
    (documents : String → Document) (path : String) (ps : List String) (p : Payload)
    (base cfg : Config)
    → Decodes decode
    → base.version ≡ default_config_values.version
    → to_config parse_url p base ≡ ok cfg
    → resolve_config_path (reads decode documents) ps ≡ some path
    → IsMergeable (documents path)
    → load_config atoi
        (reads decode (
          placed documents path
            (tree (render_config_yaml (documents path) (config_file_from_config cfg)))))
        (λ _. "")
        ps
      ≡ (prepare_config cfg, [])
saved_settings_survive decode parse_url atoi documents path ps p base cfg d ver e found h =
    load_config-save decode atoi documents path ps cfg d found h
      (to_config-IsSaveable parse_url p base cfg ver e)
