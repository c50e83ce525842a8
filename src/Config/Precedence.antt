-- ===== src/Config/Precedence.antt =====
-- Which layer a setting comes from: the environment, then init.yaml, then the defaults.
use flaresolverr_go.Prelude.{
  String, Bool, true, false, ◌≡◌, refl, ap, ◌==◌, Option, none, some, List, [], ◌∷◌, trim, to_lower,
  is_one_of, ok, arith, eq_iff, if◌then◌else◌, or_else,
}
use flaresolverr_go.Prelude.Int.{ℤ, pos, ltb_ℤ}
use flaresolverr_go.Config.{
  Config, Proxy, is_blank, first_non_empty, default_config_values, with_defaults, prepare_config,
  default_text, default_int, default_proxy_of,
}
use flaresolverr_go.Config.Load.{
  ConfigFile, Env, set_text, set_port, set_proxy, getenv, getenv_bool, getenv_int, override_proxy,
  proxy_from_env, Read, read_config_file, apply_config_file, apply_env_config, load_config,
}

-- The first layer that sets the value, or else the last resort.
abbrev pub first_set {ℓ} : {A : Type ℓ} → List (Option A) → A → A
first_set [] d = d
first_set (none ∷ layers) d = first_set layers d
first_set (some a ∷ layers) d = a

abbrev pub first_some {ℓ} : {A : Type ℓ} → List (Option A) → Option A
first_some [] = none
first_some (none ∷ layers) = first_some layers
first_some (some a ∷ layers) = some a

-- A layer that is set when its text is not empty, or not blank, or its number is positive.
abbrev pub if_non_empty : String → Option String
if_non_empty s = if s == "" then none else some s

abbrev pub if_filled : String → Option String
if_filled s = if is_blank s then none else some s

abbrev pub if_positive : ℤ → Option ℤ
if_positive n = if ltb_ℤ (pos 0) n then some n else none

-- The Boolean that a variable spells, if it spells one.
abbrev pub bool_of : String → Option Bool
bool_of s =
    if is_one_of (to_lower s) ("1" ∷ "true" ∷ "yes" ∷ "on" ∷ [])
    then some true
    else if is_one_of (to_lower s) ("0" ∷ "false" ∷ "no" ∷ "off" ∷ [])
    then some false
    else none

-- The number that a variable spells, if it is set and spells one.
abbrev pub int_of : (String → Option ℤ) → String → Option ℤ
int_of atoi s = if s == "" then none else atoi s

abbrev pub with_url : Option Proxy → Option Proxy
with_url none = none
with_url (some p) = if is_blank p.url then none else some p

is_blank-empty : is_blank "" ≡ true
unfolding trim
is_blank-empty = refl

to_lower-empty : is_one_of (to_lower "") ("1" ∷ "true" ∷ "yes" ∷ "on" ∷ []) ≡ false
unfolding to_lower
to_lower-empty = refl

to_lower-empty' : is_one_of (to_lower "") ("0" ∷ "false" ∷ "no" ∷ "off" ∷ []) ≡ false
unfolding to_lower
to_lower-empty' = refl

host_layers :
    (e f d : String)
    → (d == "") ≡ false
    → default_text (if e == "" then set_text f d else e) d
      ≡ first_set (if_non_empty e ∷ if_filled f ∷ []) d
unfolding default_text set_text
host_layers e f d h = ground (arith, is_blank-empty, eq_iff e "", eq_iff f "")

path_layers :
    (e f : String)
    → default_text (first_non_empty (e ∷ set_text f "" ∷ [])) ""
      ≡ first_set (if_filled e ∷ if_filled f ∷ []) ""
unfolding default_text set_text first_non_empty
path_layers e f = ground (arith, is_blank-empty, eq_iff e "", eq_iff f "")

bool_layers :
    (e : Env) (k : String) (f : Option Bool) (d : Bool)
    → getenv_bool e k (or_else f d) ≡ first_set (bool_of (e k) ∷ f ∷ []) d
unfolding getenv_bool
bool_layers e k f d = ground (arith, eq_iff (e k) "", to_lower-empty, to_lower-empty')

proxy_layers :
    (e f : Option Proxy)
    → default_proxy_of (override_proxy e (set_proxy f none)) none ≡ first_some (e ∷ with_url f ∷ [])
unfolding default_proxy_of override_proxy set_proxy
proxy_layers none none = refl
proxy_layers none (some p) = ground arith
proxy_layers (some q) f = refl

port_layers :
    (atoi : String → Option ℤ) (e : Env) (k : String) (f d : ℤ)
    → default_int (getenv_int atoi e k (set_port f d)) d
      ≡ default_int (first_set (int_of atoi (e k) ∷ if_positive f ∷ []) d) d
unfolding getenv_int set_port
port_layers atoi e k f d = ap (λ n. default_int n d) (ground (arith, eq_iff (e k) ""))

-- Each setting comes from the first layer that sets it. A port of 0 counts as not set, and gives
-- the default whatever the file says.
pub record FromLayers (atoi : String → Option ℤ) (env : Env) (file : ConfigFile) (c : Config)
    : Type 0 where
  pub host :
      c.host
      ≡ first_set (if_non_empty (env "HOST") ∷ if_filled file.host ∷ []) default_config_values.host
  pub port :
      c.port
      ≡ default_int
          (first_set
            (int_of atoi (env "PORT") ∷ if_positive file.port ∷ [])
            default_config_values.port)
          default_config_values.port
  pub browser_path :
      c.browser_path
      ≡ first_set (if_filled (env "BROWSER_PATH") ∷ if_filled file.browser_path ∷ []) ""
  pub driver_path :
      c.driver_path ≡ first_set (if_filled (env "DRIVER_PATH") ∷ if_filled file.driver_path ∷ []) ""
  pub headless :
      c.headless
      ≡ first_set (bool_of (env "HEADLESS") ∷ file.headless ∷ []) default_config_values.headless
  pub prometheus_enabled :
      c.prometheus_enabled
      ≡ first_set (bool_of (env "PROMETHEUS_ENABLED") ∷ file.prometheus_enabled ∷ []) false
  pub default_proxy :
      c.default_proxy ≡ first_some (proxy_from_env env ∷ with_url file.default_proxy ∷ [])

loaded :
    (atoi : String → Option ℤ) (env : Env) (file : ConfigFile)
    → FromLayers atoi env file
        (prepare_config (apply_env_config atoi env (apply_config_file default_config_values file)))
unfolding prepare_config with_defaults apply_env_config apply_config_file getenv
loaded atoi env file = record {
  host = host_layers (env "HOST") file.host "0.0.0.0" refl;
  port = port_layers atoi env "PORT" file.port (pos 8191);
  browser_path = path_layers (env "BROWSER_PATH") file.browser_path;
  driver_path = path_layers (env "DRIVER_PATH") file.driver_path;
  headless = bool_layers env "HEADLESS" file.headless true;
  prometheus_enabled = bool_layers env "PROMETHEUS_ENABLED" file.prometheus_enabled false;
  default_proxy = proxy_layers (proxy_from_env env) file.default_proxy;
}

-- Where init.yaml is found and parsed, each of the settings of FromLayers comes from the
-- environment if it is set there, else from the file if it is set there, else from the defaults.
pub load_config-FromLayers :
    (atoi : String → Option ℤ) (disk : String → Read) (env : Env) (ps : List String)
    (file : ConfigFile)
    → (read_config_file disk ps).0 ≡ ok (some file)
    → FromLayers atoi env file (load_config atoi disk env ps).0
unfolding load_config
load_config-FromLayers atoi disk env ps file found = rw found (loaded atoi env file)
