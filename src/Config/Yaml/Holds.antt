-- ===== src/Config/Yaml/Holds.antt =====
-- server/config.go: which settings a tree holds, and that a tree that is rendered holds what was
-- saved.
use flaresolverr_go.Prelude.{
  String, Bool, true, false, Option, none, some, List, ◌==◌, ◌≡◌, refl, sym, subst, ◌∙◌, is_one_of,
  Bool-cases, inl, inr, eq_iff, Result, ok,
}
use flaresolverr_go.Prelude.Int.{ℤ}
use flaresolverr_go.Prelude.Assoc.{lookup}
use flaresolverr_go.Config.{Proxy}
use flaresolverr_go.Config.Load.{ConfigFile}
use flaresolverr_go.Config.Yaml.{
  Node, scalar, mapping, other, Fields, null, text, number, flag, find, merge_node, merge_mapping,
  present, some_text, some_number, some_flag, omit_empty, proxy_node, proxy_entries, entries_of,
  config_file_keys, Document, tree,
}
use flaresolverr_go.Config.Yaml.Merge.{
  Distinct, total, merged, blanked, flat, find-merge_mapping, merge_mapping-Distinct,
  present-Distinct, distinct_keys,
}

-- What a node, or none, is read as: a missing text is the empty one, and a flag that is null is nil.
unfoldable pub IsText : Option Node → String → Type 0
IsText none s = s ≡ ""
IsText (some (scalar (text t))) s = s ≡ t
IsText o s = ⊥

unfoldable pub IsNumber : Option Node → ℤ → Type 0
IsNumber (some (scalar (number m))) n = n ≡ m
IsNumber o n = ⊥

unfoldable pub IsFlag : Option Node → Option Bool → Type 0
IsFlag (some (scalar (flag c))) b = b ≡ some c
IsFlag (some (scalar null)) b = b ≡ none
IsFlag o b = ⊥

-- Plain: no key twice, and no merge key.
pub record IsPlain (fields : Fields) : Type 0 where
  pub distinct : Distinct fields
  pub no_merge_key : find "<<" fields ≡ none

unfoldable pub IsProxy : Option Node → Option Proxy → Type 0
IsProxy none p = p ≡ none
IsProxy (some (mapping fields)) (some p) =
    IsPlain fields
    × IsText (find "url" fields) p.url
    × IsText (find "username" fields) p.username
    × IsText (find "password" fields) p.password
IsProxy o p = ⊥

pub record Holds (fields : Fields) (f : ConfigFile) : Type 0 where
  pub host : IsText (find "host" fields) f.host
  pub port : IsNumber (find "port" fields) f.port
  pub browser_backend : IsText (find "browser_backend" fields) f.browser_backend
  pub browser_path : IsText (find "browser_path" fields) f.browser_path
  pub driver_path : IsText (find "driver_path" fields) f.driver_path
  pub driver_cache_dir : IsText (find "driver_cache_dir" fields) f.driver_cache_dir
  pub driver_auto_download : IsFlag (find "driver_auto_download" fields) f.driver_auto_download
  pub chrome_for_testing_url :
      IsText (find "chrome_for_testing_url" fields) f.chrome_for_testing_url
  pub headless : IsFlag (find "headless" fields) f.headless
  pub startup_user_agent : IsText (find "startup_user_agent" fields) f.startup_user_agent
  pub log_level : IsText (find "log_level" fields) f.log_level
  pub log_html : IsFlag (find "log_html" fields) f.log_html
  pub disable_media : IsFlag (find "disable_media" fields) f.disable_media
  pub prometheus_enabled : IsFlag (find "prometheus_enabled" fields) f.prometheus_enabled
  pub prometheus_port : IsNumber (find "prometheus_port" fields) f.prometheus_port
  pub default_proxy : IsProxy (find "proxy" fields) f.default_proxy

-- What yaml.Unmarshal does with a plain mapping whose values have the types of the struct.
unfoldable pub Decodes : (Node → Result ConfigFile) → Type 0
Decodes decode =
    (fields : Fields) (f : ConfigFile)
    → IsPlain fields
    → Holds fields f
    → decode (mapping fields) ≡ ok f

-- A proxy that can be merged with one, or dropped: not a scalar.
unfoldable pub IsProxyNode : Option Node → Type 0
IsProxyNode none = Unit
IsProxyNode (some (scalar s)) = ⊥
IsProxyNode (some (mapping fields)) = IsPlain fields
IsProxyNode (some other) = Unit

-- An init.yaml that settings can be merged into. One that is not a mapping is replaced.
unfoldable pub IsMergeable : Document → Type 0
IsMergeable (tree (mapping fields)) = IsPlain fields × IsProxyNode (find "proxy" fields)
IsMergeable d = Unit

abbrev pub keys : List String
keys = config_file_keys

IsText-total :
    (own : Bool) (s : String) (old : Option Node) → IsText (total keys own (some_text s) old) s
unfolding total merged merge_node IsText
IsText-total own s none = refl
IsText-total own s (some old) = refl

blanked-IsText : (s : String) (old : Option Node) → s ≡ "" → IsText (blanked keys old) s
unfolding blanked IsText
blanked-IsText s none e = e
blanked-IsText s (some (scalar v)) e = e
blanked-IsText s (some (mapping fields)) e = e
blanked-IsText s (some other) e = e

omit-total : (s : String) (old : Option Node) → IsText (total keys true (omit_empty s) old) s
unfolding total
omit-total s old = elim (Bool-cases (s == "")) [
  | inl e ↦ rw e (blanked-IsText s old ((eq_iff s "").0 e))
  | inr e ↦ rw e (IsText-total true s old)
]

IsNumber-total : (n : ℤ) (old : Option Node) → IsNumber (total keys true (some_number n) old) n
unfolding total merged merge_node IsNumber
IsNumber-total n none = refl
IsNumber-total n (some old) = refl

IsFlag-total : (b : Option Bool) (old : Option Node) → IsFlag (total keys true (some_flag b) old) b
unfolding total merged merge_node IsFlag
IsFlag-total none none = refl
IsFlag-total none (some old) = refl
IsFlag-total (some b) none = refl
IsFlag-total (some b) (some old) = refl

-- The settings of a proxy.
abbrev proxy_fields : Proxy → Fields
proxy_fields p = present (proxy_entries p)

proxy_fields-Distinct : (p : Proxy) → Distinct (proxy_fields p)
proxy_fields-Distinct p = present-Distinct (proxy_entries p) (unfold distinct_keys lookup in refl)

fresh-IsProxy : (p : Proxy) → IsProxy (some (mapping (proxy_fields p))) (some p)
unfolding IsProxy IsText find present
fresh-IsProxy p =
    (record { distinct = proxy_fields-Distinct p; no_merge_key = refl }, refl, refl, refl)

merged-IsProxy :
    (p : Proxy) (old : Fields)
    → IsPlain old
    → IsProxy (some (mapping (merge_mapping keys (proxy_fields p) old))) (some p)
unfolding IsProxy find present total
merged-IsProxy p old h =
    let at = λ (k : String).
      find-merge_mapping keys (proxy_fields p) old k (proxy_fields-Distinct p) h.distinct in
    (
      record {
        distinct = merge_mapping-Distinct keys (proxy_fields p) old h.distinct;
        no_merge_key = at "<<" ∙ h.no_merge_key;
      },
      subst (λ o. IsText o p.url) (sym (at "url")) (IsText-total false p.url (find "url" old)),
      subst (λ o. IsText o p.username) (sym (at "username"))
          (IsText-total false p.username (find "username" old)),
      subst (λ o. IsText o p.password) (sym (at "password"))
          (IsText-total false p.password (find "password" old)),
    )

proxy-total :
    (p : Option Proxy) (old : Option Node)
    → IsProxyNode old
    → IsProxy (total keys true (proxy_node p) old) p
unfolding proxy_node total merged merge_node blanked IsProxyNode IsProxy merge_mapping
proxy-total none none h = refl
proxy-total none (some (scalar s)) h = absurd h
proxy-total none (some (mapping fields)) h = refl
proxy-total none (some other) h = refl
proxy-total (some p) none h = fresh-IsProxy p
proxy-total (some p) (some (scalar s)) h = absurd h
proxy-total (some p) (some (mapping fields)) h = merged-IsProxy p fields h
proxy-total (some p) (some other) h = fresh-IsProxy p

-- A tree in which each key has what the settings leave there holds the settings.
pub total-Holds :
    (fields : Fields) (f : ConfigFile) (old : String → Option Node)
    → ((k : String)
        → find k fields ≡ total keys (is_one_of k keys) (flat (lookup k (entries_of f))) (old k))
    → IsProxyNode (old "proxy")
    → Holds fields f
unfolding lookup
total-Holds fields f old at h = record {
  host = subst (λ o. IsText o f.host) (sym (at "host")) (IsText-total true f.host (old "host"));
  port = subst (λ o. IsNumber o f.port) (sym (at "port")) (IsNumber-total f.port (old "port"));
  browser_backend = omitted "browser_backend" f.browser_backend (at "browser_backend");
  browser_path = omitted "browser_path" f.browser_path (at "browser_path");
  driver_path = omitted "driver_path" f.driver_path (at "driver_path");
  driver_cache_dir = omitted "driver_cache_dir" f.driver_cache_dir (at "driver_cache_dir");
  driver_auto_download =
      flagged "driver_auto_download" f.driver_auto_download (at "driver_auto_download");
  chrome_for_testing_url =
      omitted "chrome_for_testing_url" f.chrome_for_testing_url (at "chrome_for_testing_url");
  headless = flagged "headless" f.headless (at "headless");
  startup_user_agent = omitted "startup_user_agent" f.startup_user_agent (at "startup_user_agent");
  log_level = omitted "log_level" f.log_level (at "log_level");
  log_html = flagged "log_html" f.log_html (at "log_html");
  disable_media = flagged "disable_media" f.disable_media (at "disable_media");
  prometheus_enabled = flagged "prometheus_enabled" f.prometheus_enabled (at "prometheus_enabled");
  prometheus_port =
      subst (λ o. IsNumber o f.prometheus_port) (sym (at "prometheus_port"))
        (IsNumber-total f.prometheus_port (old "prometheus_port"));
  default_proxy =
      subst (λ o. IsProxy o f.default_proxy) (sym (at "proxy"))
        (proxy-total f.default_proxy (old "proxy") h);
}
  where
    omitted :
        (k s : String)
        → find k fields ≡ total keys true (omit_empty s) (old k)
        → IsText (find k fields) s
    omitted k s e = subst (λ o. IsText o s) (sym e) (omit-total s (old k))

    flagged :
        (k : String) (b : Option Bool)
        → find k fields ≡ total keys true (some_flag b) (old k)
        → IsFlag (find k fields) b
    flagged k b e = subst (λ o. IsFlag o b) (sym e) (IsFlag-total b (old k))
