-- ===== src/Factory/Launch.antt =====
-- server/default_browser_factory.go: what is launched, and with which proxy.
use flaresolverr_go.Prelude.{
  ℕ, String, Bool, true, false, not, ◌≡◌, ◌≢◌, ◌⊎◌, inl, inr, refl, Option, none, some, trim,
  to_lower, is_one_of, ◌==◌, if◌then◌else◌, deadline_exceeded, failure, Result, ok, err, >>=-eq-ok,
  ◌>>=◌, Bool-cases, arith, eq_iff,
}
use flaresolverr_go.Config.{Config, Proxy, with_defaults, is_blank}
use flaresolverr_go.Settings.{require}
use flaresolverr_go.Factory.{
  Machine, ProxyUrl, BrowserConfig, Backend, geckodriver, webdriver, chromedp, proxy_schemes,
  candidate_url, explained, check_parsed, parse_proxy_url, validate_proxy, start_gecko,
  new_gecko_driver_backend, start_chrome, new_chrome_driver_backend, refused, select, new_browser,
  resolve_browser_backend, browser_config,
}

-- A proxy that the backends can honour: none, one with no URL, or one whose URL has one of the
-- four schemes, a host and a port.
abbrev pub IsUsable : Machine → Option Proxy → Type 0
IsUsable m none = Unit
IsUsable m (some p) =
    (is_blank p.url ≡ true)
    ⊎ ((u : ProxyUrl) × (m.parse_url (candidate_url (trim p.url)) ≡ ok u)
        × (is_one_of (to_lower u.scheme) proxy_schemes ≡ true)
        × (u.hostname ≢ "")
        × (u.port ≢ ""))

-- The browser b was started by a backend with this proxy, by geckodriver only with the paths of a
-- driver and of a browser.
pub record IsLaunched (m : Machine) (proxy : Option Proxy) (b : ℕ) : Type 0 where
  pub backend : Backend
  pub config : BrowserConfig
  pub started : m.start backend config proxy ≡ ok b
  pub paths :
      backend ≡ geckodriver
      → (is_blank config.driver_path ≡ false) × (is_blank config.browser_path ≡ false)

url_parts :
    (m : Machine) (prefix raw : String) (r : Result ProxyUrl) (parsed : String × String)
    → (explained prefix r >>= check_parsed m raw) ≡ ok parsed
    → (u : ProxyUrl) × (r ≡ ok u)
      × (is_one_of (to_lower u.scheme) proxy_schemes ≡ true)
      × (u.hostname ≢ "")
      × (u.port ≢ "")
unfolding explained check_parsed
url_parts m prefix raw (err x) parsed e = cc
url_parts m prefix raw (ok u) parsed e =
    (u, refl, ground arith, ground (arith, eq_iff u.hostname ""), ground (arith, eq_iff u.port ""))

parsed-IsUsable :
    (m : Machine) (p : Proxy) (parsed : String × String)
    → parse_proxy_url m p.url ≡ ok parsed
    → IsUsable m (some p)
unfolding parse_proxy_url
parsed-IsUsable m p parsed e =
    let (x, h, e') = >>=-eq-ok (require (not (trim p.url == "")) "proxy url is empty") _ e in
    inr (url_parts m _ (trim p.url) (m.parse_url (candidate_url (trim p.url))) parsed e')

otherwise :
    (b : Bool) (r : Result (Unit {0})) → b ≡ false → (if b then ok tt else r) ≡ ok tt → r ≡ ok tt
otherwise true r h e = cc
otherwise false r h e = e

validate-IsUsable :
    (m : Machine) (proxy : Option Proxy) → validate_proxy m proxy ≡ ok tt → IsUsable m proxy
unfolding validate_proxy
validate-IsUsable m none e = tt
validate-IsUsable m (some p) e = elim (Bool-cases (is_blank p.url)) [
  | inl h ↦ inl h
  | inr h ↦
      let (parsed, e', q) =
        >>=-eq-ok (parse_proxy_url m p.url) (λ parsed. ok tt) (otherwise (is_blank p.url) _ h e) in
      parsed-IsUsable m p parsed e'
]

gecko-IsLaunched :
    (m : Machine) (c : BrowserConfig) (proxy : Option Proxy) (b : ℕ)
    → start_gecko m c proxy ≡ ok b
    → IsLaunched m proxy b
unfolding start_gecko
gecko-IsLaunched m c proxy b e = record {
  backend = geckodriver;
  config = c;
  started = ground arith;
  paths = λ g. (ground arith, ground arith);
}

chrome-IsLaunched :
    (m : Machine) (path : Result String) (c : BrowserConfig) (proxy : Option Proxy) (b : ℕ)
    → start_chrome m path c proxy ≡ ok b
    → IsLaunched m proxy b
unfolding start_chrome
chrome-IsLaunched m (err x) c proxy b e = record {
  backend = chromedp;
  config = c;
  started = e;
  paths = λ g. cc;
}
chrome-IsLaunched m (ok path) c proxy b e = elim (Bool-cases (path == "")) [
  | inl h ↦ record { backend = chromedp; config = c; started = rw h at e; paths = λ g. cc }
  | inr h ↦ record {
    backend = webdriver;
    config = record c { driver_path = path };
    started = rw h at e;
    paths = λ g. cc;
  }
]

chrome_backend-IsLaunched :
    (m : Machine) (cfg : Config) (c : BrowserConfig) (proxy : Option Proxy) (b : ℕ)
    → new_chrome_driver_backend m cfg c proxy ≡ ok b
    → IsLaunched m proxy b
unfolding new_chrome_driver_backend
chrome_backend-IsLaunched m cfg c proxy b e =
    chrome-IsLaunched m (m.chromedriver_path cfg) _ proxy b e

gecko_backend-IsLaunched :
    (m : Machine) (cfg : Config) (c : BrowserConfig) (proxy : Option Proxy) (b : ℕ)
    → new_gecko_driver_backend m cfg c proxy ≡ ok b
    → IsLaunched m proxy b
unfolding new_gecko_driver_backend
gecko_backend-IsLaunched m cfg c proxy b e = gecko-IsLaunched m _ proxy b e

select-IsLaunched :
    (m : Machine) (cfg : Config) (proxy : Option Proxy) (b : ℕ)
    → select m cfg proxy ≡ ok b
    → IsLaunched m proxy b
unfolding select
select-IsLaunched m cfg proxy b e =
    elim (Bool-cases (resolve_browser_backend m cfg == "geckodriver")) [
      | inl h ↦ gecko_backend-IsLaunched m cfg (browser_config m cfg) proxy b (rw h at e)
      | inr h ↦ chrome_backend-IsLaunched m cfg (browser_config m cfg) proxy b (rw h at e)
    ]

accepted : (m : Machine) (r : Result (Unit {0})) (x : Unit {0}) → refused m r ≡ ok x → r ≡ ok tt
unfolding refused
accepted m (ok x) y e = refl
accepted m (err (failure text)) y e = cc
accepted m (err (deadline_exceeded text)) y e = cc

-- A browser is only ever launched with the proxy that was asked for, and only if that proxy is
-- one that the backends can honour: there is no direct connection in its place. geckodriver is
-- started only with the paths of a driver and of a browser.
pub new_browser-IsLaunched :
    (m : Machine) (cfg : Config) (proxy : Option Proxy) (b : ℕ)
    → new_browser m cfg proxy ≡ ok b
    → IsUsable m proxy × IsLaunched m proxy b
unfolding new_browser
new_browser-IsLaunched m cfg proxy b e =
    let (x, h, e') = >>=-eq-ok (refused m (validate_proxy m proxy)) _ e in
    (
      validate-IsUsable m proxy (accepted m _ x h),
      select-IsLaunched m (with_defaults cfg) proxy b e',
    )
