-- ===== src/Factory.antt =====
-- server/default_browser_factory.go, the proxy checks of server/browser/common.go, and the search
-- for browsers of server/browser_path.go. The machine, net/url, the driver managers and the
-- backends are arguments.
pub mod Launch
use flaresolverr_go.Prelude.{
  ℕ, String, Bool, true, false, not, ◌&&◌, ◌||◌, Option, none, some, or_else, List, [], ◌∷◌, ◌++◌,
  trim, to_lower, contains, is_one_of, join, ◌==◌, ◌<>◌, if◌then◌else◌, Error, failure, wrap,
  Result, ok, err, ◌>>=◌, ◌>>◌,
}
use flaresolverr_go.Config.{
  Config, Proxy, Level, with_defaults, is_blank, canonical_browser_backend,
}
use flaresolverr_go.Settings.{require}

-- What the code reads of the URL of a proxy: Scheme, Hostname() and Port().
pub record ProxyUrl : Type 0 where
  pub scheme : String
  pub hostname : String
  pub port : String

pub record BrowserConfig : Type 0 where
  pub browser_path : String
  pub driver_path : String
  pub headless : Bool
  pub startup_user_agent : String
  pub log_html : Bool
  pub debug_logging : Bool
  pub disable_media : Bool
  pub driver_cache_dir : String
  pub driver_auto_download : Bool
  pub chrome_for_testing_url : String
  pub logger : Option Level

pub data Backend : Type 0 where
  geckodriver webdriver chromedp : Backend

-- exec.LookPath, os.UserHomeDir, fileExists, looksLikeGeckoInstall, filepath.Base and Join, %q,
-- url.Parse, the paths that the driver managers find, and the constructors of the backends.
pub record Machine : Type 0 where
  pub look_path : String → Option String
  pub home : Option String
  pub file_exists : String → Bool
  pub looks_like_gecko_install : String → Bool
  pub base : String → String
  pub join_path : List String → String
  pub quote : String → String
  pub parse_url : String → Result ProxyUrl
  pub geckodriver_path : Config → Result String
  pub chromedriver_path : Config → Result String
  pub start : Backend → BrowserConfig → Option Proxy → Result ℕ

abbrev pub proxy_schemes : List String
proxy_schemes = "http" ∷ "https" ∷ "socks4" ∷ "socks5" ∷ []

-- The URL as it is parsed: a bare host:port is http.
abbrev pub candidate_url : String → String
candidate_url raw = if contains raw "://" then raw else "http://" <> raw

explained : String → Result ProxyUrl → Result ProxyUrl
explained prefix (ok u) = ok u
explained prefix (err e) = err (wrap prefix e)

module _ (m : Machine) where
  check_parsed : String → ProxyUrl → Result (String × String)
  check_parsed raw u = do
    require (is_one_of (to_lower u.scheme) proxy_schemes) (
        "proxy url "
        <> (m.quote raw
            <> (" uses unsupported scheme "
                <> (m.quote (to_lower u.scheme)
                    <> (", expected one of " <> join proxy_schemes ", ")))))
    require (not ((u.hostname == "") || (u.port == "")))
        ("proxy url " <> (m.quote raw <> " must include both host and port"))
    ok (to_lower u.scheme, u.hostname <> (":" <> u.port))

  unfoldable pub parse_proxy_url : String → Result (String × String)
  unfolding check_parsed explained
  parse_proxy_url given = do
    let raw = trim given
    require (not (raw == "")) "proxy url is empty"
    u ←
        explained ("proxy url " <> (m.quote raw <> " is not a valid URL: "))
          (m.parse_url (candidate_url raw))
    check_parsed raw u

  unfoldable pub validate_proxy : Option Proxy → Result (Unit {0})
  unfolding parse_proxy_url
  validate_proxy none = ok tt
  validate_proxy (some p) =
      if is_blank p.url then ok tt else (parse_proxy_url p.url >>= λ parsed. ok tt)

  -- The first of these names that is on PATH.
  unfoldable pub find_on_path : List String → String
  find_on_path [] = ""
  find_on_path (name ∷ names) =
      let rest = find_on_path names in elim (m.look_path name) [ none ↦ rest | some path ↦ path ]

  unfoldable pub find_chrome_binary : String
  unfolding find_on_path
  find_chrome_binary =
      find_on_path
        ("google-chrome" ∷ "google-chrome-stable" ∷ "chromium" ∷ "chromium-browser" ∷ "chrome" ∷ [])

  -- if strings.TrimSpace(path) != "" { candidates = append(candidates, path) }
  added : Option String → List String
  added none = []
  added (some path) = if is_blank path then [] else path ∷ []

  under_home : Option String → List String
  unfolding added
  under_home none = []
  under_home (some home) =
      added (some (m.join_path (home ∷ ".cache" ∷ "camoufox" ∷ "camoufox" ∷ [])))
      ++ added (some (m.join_path (home ∷ ".cache" ∷ "camoufox" ∷ "camoufox-bin" ∷ [])))

  abbrev well_known_firefox_paths : List String
  well_known_firefox_paths =
      "/usr/lib/firefox/firefox" ∷ "/usr/lib/firefox-esr/firefox-esr" ∷ "/opt/firefox/firefox" ∷ []

  unfoldable pub firefox_candidates : List String
  unfolding under_home added
  firefox_candidates =
      added (m.look_path "camoufox")
      ++ (under_home m.home ++ (added (m.look_path "firefox") ++ well_known_firefox_paths))

  -- The first candidate that passes the test, or else the fallback.
  first_where : (String → Bool) → String → List String → String
  first_where test fallback [] = fallback
  first_where test fallback (path ∷ paths) =
      let rest = first_where test fallback paths in if test path then path else rest

  unfoldable pub find_firefox_binary : String
  unfolding first_where
  find_firefox_binary =
      first_where (λ path. m.file_exists path && m.looks_like_gecko_install path)
        (first_where m.file_exists "" firefox_candidates) firefox_candidates

  unfoldable pub is_firefox_binary : String → Bool
  is_firefox_binary path =
      contains (to_lower (m.base path)) "firefox" || contains (to_lower (m.base path)) "camoufox"

  unfoldable pub resolve_browser_backend : Config → String
  unfolding find_firefox_binary find_chrome_binary is_firefox_binary
  resolve_browser_backend cfg =
      if canonical_browser_backend cfg.browser_backend == "geckodriver"
      then "geckodriver"
      else if canonical_browser_backend cfg.browser_backend == "chromedriver"
      then "chromedriver"
      else if is_firefox_binary cfg.browser_path
      then "geckodriver"
      else if is_blank cfg.browser_path
          && (not (find_firefox_binary == "") && (find_chrome_binary == ""))
      then "geckodriver"
      else "chromedriver"

  -- The path of the browser, looked up where none is configured.
  abbrev with_browser : String → BrowserConfig → BrowserConfig
  with_browser detected c = record c {
    browser_path = if is_blank c.browser_path then detected else c.browser_path;
  }

  -- A path that was found, or none.
  abbrev found : Result String → String
  found (ok path) = path
  found (err e) = ""

  abbrev with_driver : String → BrowserConfig → BrowserConfig
  with_driver path c = record c {
    driver_path = if is_blank c.driver_path && not (is_blank path) then path else c.driver_path;
  }

  unfoldable pub start_gecko : BrowserConfig → Option Proxy → Result ℕ
  start_gecko c proxy = do
    require (not (is_blank c.driver_path))
        "geckodriver not found; set driver_path or enable driver_auto_download"
    require (not (is_blank c.browser_path))
        "firefox/camoufox binary not found; set browser_path or install camoufox"
    m.start geckodriver c proxy

  unfoldable pub new_gecko_driver_backend : Config → BrowserConfig → Option Proxy → Result ℕ
  unfolding start_gecko find_firefox_binary
  new_gecko_driver_backend cfg c proxy =
      start_gecko
        (with_driver (found (m.geckodriver_path cfg)) (
          with_browser (if find_firefox_binary == "" then c.browser_path else find_firefox_binary)
            c))
        proxy

  start_chrome : Result String → BrowserConfig → Option Proxy → Result ℕ
  start_chrome (err e) c proxy = m.start chromedp c proxy
  start_chrome (ok path) c proxy =
      if path == ""
      then m.start chromedp c proxy
      else m.start webdriver (record c { driver_path = path }) proxy

  unfoldable pub new_chrome_driver_backend : Config → BrowserConfig → Option Proxy → Result ℕ
  unfolding start_chrome find_chrome_binary
  new_chrome_driver_backend cfg c proxy =
      start_chrome (m.chromedriver_path cfg)
        (with_browser (if find_chrome_binary == "" then c.browser_path else find_chrome_binary) c)
        proxy

  abbrev pub browser_config : Config → BrowserConfig
  browser_config cfg = record {
    browser_path = cfg.browser_path;
    driver_path = cfg.driver_path;
    headless = cfg.headless;
    startup_user_agent = cfg.startup_user_agent;
    log_html = cfg.log_html;
    debug_logging = cfg.debug_logging;
    disable_media = cfg.disable_media;
    driver_cache_dir = cfg.driver_cache_dir;
    driver_auto_download = cfg.driver_auto_download;
    chrome_for_testing_url = cfg.chrome_for_testing_url;
    logger = cfg.logger;
  }

  refused : Result (Unit {0}) → Result (Unit {0})
  refused (ok x) = ok tt
  refused (err (failure text)) =
      err (
        failure ("unusable proxy: " <> (text <> " (refusing to fall back to a direct connection)")))
  refused (err e) = err (wrap "unusable proxy: " e)

  select : Config → Option Proxy → Result ℕ
  unfolding resolve_browser_backend new_gecko_driver_backend new_chrome_driver_backend
  select cfg proxy =
      if resolve_browser_backend cfg == "geckodriver"
      then new_gecko_driver_backend cfg (browser_config cfg) proxy
      else new_chrome_driver_backend cfg (browser_config cfg) proxy

  unfoldable pub new_browser : Config → Option Proxy → Result ℕ
  unfolding refused validate_proxy select
  new_browser given proxy = refused (validate_proxy proxy) >> select (with_defaults given) proxy
