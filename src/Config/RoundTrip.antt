-- ===== src/Config/RoundTrip.antt =====
-- What is saved is what the next start reads: the file is found again, and the configuration that
-- it yields is the prepared one.
use flaresolverr_go.Prelude.{
  ap, Bool-cases, inl, inr, to_lower, String, true, false, ◌≡◌, refl, ◌==◌, ◌⊎◌, ◌≢◌, Option, none,
  some, List, [], ◌∷◌, trim, Result, ok, arith, eq_iff, if◌then◌else◌,
}
use mathlib.Core.Path.{fun_ext}
use flaresolverr_go.Prelude.Int.{ℤ, pos, ltb_ℤ}
use flaresolverr_go.Config.{
  Config, Proxy, is_blank, first_non_empty, canonical_log_level, canonical_browser_backend,
  default_chrome_for_testing_base_url, default_config_values, with_defaults, prepare_config,
  default_text, default_int,
}
use flaresolverr_go.Config.Names.{
  IsBackend, canonical_browser_backend_fixed, IsBackend-is_blank, canonical_log_level_idem,
  canonical_log_level-IsLogLevel, IsLogLevel-is_blank,
}
use flaresolverr_go.Config.Defaults.{default_text-canonical_log_level}
use flaresolverr_go.Config.Load.{
  ConfigFile, set_text, set_port, set_proxy, getenv, override_proxy, Read, parsed, read_config_file,
  resolve_config_path, apply_config_file, apply_env_config, load_config, proxy_from_env,
  getenv_bool, getenv_int,
}
use flaresolverr_go.Config.Yaml.{Node, Document, tree, placed, read_document, render_config_yaml}
use flaresolverr_go.Config.Yaml.Holds.{Decodes, IsMergeable}
use flaresolverr_go.Config.Yaml.Rendered.{rendered-parsed}
use flaresolverr_go.Config.Save.{config_file_from_config, file_proxy}

-- A disk on which this path, too, is read as this file.
abbrev with_file : (String → Read) → String → ConfigFile → String → Read
with_file disk path file p = if p == path then parsed file else disk p

read-write_first :
    (disk : String → Read) (file : ConfigFile) (p : String) (ps : List String)
    → read_config_file (with_file disk p file) (p ∷ ps) ≡ (ok (some file), p)
unfolding read_config_file
read-write_first disk file p ps = ground (arith, eq_iff p p)

read-write_found :
    (disk : String → Read) (file : ConfigFile) (q : String) (ps : List String)
    → q ≢ ""
    → (read_config_file disk ps).1 ≡ q
    → read_config_file (with_file disk q file) ps ≡ (ok (some file), q)
unfolding read_config_file
read-write_found disk file q [] ne e = ground arith
read-write_found disk file q (p ∷ ps) ne e =
    ground (arith, eq_iff p q, read-write_found disk file q ps ne)

-- The path that a save resolves is the one that the next search stops at.
pub read-resolve :
    (disk : String → Read) (file : ConfigFile) (path : String) (ps : List String)
    → resolve_config_path disk ps ≡ some path
    → read_config_file (with_file disk path file) ps ≡ (ok (some file), path)
unfolding resolve_config_path
read-resolve disk file path [] e = ground arith
read-resolve disk file path (p ∷ ps) e = ground (
  arith,
  eq_iff (read_config_file disk (p ∷ ps)).1 "",
  read-write_first disk file p ps,
  read-write_found disk file path (p ∷ ps),
)

-- Empty, or not blank.
abbrev pub Plain : String → Type 0
Plain s = (s ≡ "") ⊎ (is_blank s ≡ false)

abbrev pub PlainProxy : Option Proxy → Type 0
PlainProxy none = Unit
PlainProxy (some p) = is_blank p.url ≡ false

pub record IsSaveable (c : Config) : Type 0 where
  pub host : is_blank c.host ≡ false
  pub port : ltb_ℤ (pos 0) c.port ≡ true
  pub prometheus_port : ltb_ℤ (pos 0) c.prometheus_port ≡ true
  pub browser_backend : IsBackend c.browser_backend
  pub browser_path : Plain c.browser_path
  pub driver_path : Plain c.driver_path
  pub driver_cache_dir : Plain c.driver_cache_dir
  pub chrome_for_testing_url : Plain c.chrome_for_testing_url
  pub startup_user_agent : Plain c.startup_user_agent
  pub default_proxy : PlainProxy c.default_proxy
  pub version : c.version ≡ default_config_values.version

abbrev no_env : String → String
no_env _ = ""

pub is_blank-empty : is_blank "" ≡ true
unfolding trim
is_blank-empty = refl

-- A text that has gone through the file and an empty environment.
abbrev read_back : String → String → String
read_back s d = if is_blank (set_text s d) then "" else set_text s d

read_back_of_Plain : (s : String) → Plain s → read_back s "" ≡ s
unfolding set_text first_non_empty
read_back_of_Plain s p = ground (arith, is_blank-empty)

default_text-read_back :
    (s d : String)
    → Plain s
    → is_blank d ≡ false
    → default_text (read_back s d) d ≡ default_text s d
unfolding set_text first_non_empty default_text
default_text-read_back s d p e = ground (arith, is_blank-empty, eq_iff s "", eq_iff d "")

default_text-set_text :
    (s d : String) → is_blank s ≡ false → default_text (set_text s d) d ≡ default_text s d
unfolding set_text default_text
default_text-set_text s d e = ground arith

default_int-set_port :
    (n d : ℤ) → ltb_ℤ (pos 0) n ≡ true → default_int (set_port n d) d ≡ default_int n d
unfolding set_port default_int
default_int-set_port n d e = ground arith

-- The proxy that is read is the one that was saved.
set_proxy_saved : (p : Option Proxy) → PlainProxy p → set_proxy (file_proxy p) none ≡ p
unfolding set_proxy file_proxy
set_proxy_saved none h = refl
set_proxy_saved (some p) h = rw (h, set_proxy) (ground arith)

backend_back :
    {b : String} (d : String)
    → IsBackend b
    → (if is_blank b then d else canonical_browser_backend b) ≡ b
backend_back d h = rw (IsBackend-is_blank h) (canonical_browser_backend_fixed h)

abbrev level_text : String → String → String
level_text l d =
    if is_blank (canonical_log_level l) then d else canonical_log_level (canonical_log_level l)

level_back :
    (l : String) (d : String)
    → (if is_blank (level_text l d) then "" else level_text l d) ≡ canonical_log_level l
level_back l d =
    let h = IsLogLevel-is_blank (canonical_log_level-IsLogLevel l) in
    ground (arith, is_blank-empty, h, canonical_log_level_idem l)

level_default :
    (l : String)
    → canonical_log_level (canonical_log_level l) ≡ canonical_log_level (default_text l "info")
unfolding default_text
level_default l = elim (Bool-cases (l == "")) [
  | inl e ↦
      rw (canonical_log_level_idem l, (eq_iff l "").0 e)
        (unfold canonical_log_level trim to_lower in refl)
  | inr e ↦ rw (e, canonical_log_level_idem l)
]

chrome_url_filled : is_blank default_chrome_for_testing_base_url ≡ false
unfolding trim
chrome_url_filled = refl

-- A document that was rendered reads as its settings.
placed-reads :
    (decode : Node → Result ConfigFile) (documents : String → Document) (path : String)
    (file : ConfigFile)
    → Decodes decode
    → IsMergeable (documents path)
    → (p : String)
    → read_document decode
        (placed documents path (tree (render_config_yaml (documents path) file)) p)
      ≡ with_file (λ q. read_document decode (documents q)) path file p
placed-reads decode documents path file d h p = elim (Bool-cases (p == path)) [
  | inl e ↦ rw e (rendered-parsed decode (documents path) file d h)
  | inr e ↦ rw e refl
]

module _ (atoi : String → Option ℤ) (c : Config) (v : IsSaveable c) where
  restored :
      prepare_config (
        apply_env_config atoi no_env
          (apply_config_file default_config_values (config_file_from_config c)))
      ≡ prepare_config c
  unfolding prepare_config with_defaults apply_env_config apply_config_file config_file_from_config
      getenv getenv_int getenv_bool override_proxy proxy_from_env first_non_empty
  restored = simp is_blank-empty (
      simp
        (
          default_text-set_text c.host _ v.host,
          default_int-set_port c.port _ v.port,
          default_int-set_port c.prometheus_port _ v.prometheus_port,
          backend_back {b = c.browser_backend} _ v.browser_backend,
          read_back_of_Plain c.browser_path v.browser_path,
          read_back_of_Plain c.driver_path v.driver_path,
          read_back_of_Plain c.driver_cache_dir v.driver_cache_dir,
          read_back_of_Plain c.startup_user_agent v.startup_user_agent,
          default_text-read_back c.chrome_for_testing_url _ v.chrome_for_testing_url
              chrome_url_filled,
          set_proxy_saved c.default_proxy v.default_proxy,
          level_back c.log_level _,
          default_text-canonical_log_level,
          v.version,
        )
        (simp (level_default c.log_level)))

-- How the documents on a disk are read.
abbrev pub reads : (Node → Result ConfigFile) → (String → Document) → String → Read
reads decode documents p = read_document decode (documents p)

-- Saving a configuration and starting again, with nothing in the environment, gives the prepared
-- configuration and no warning. The configuration is one whose fields the file can hold, as those
-- that the settings page accepts are; it is merged into the init.yaml that the search finds, which
-- has no key twice, no merge key, and no scalar for a proxy, where it is a mapping; and of the YAML
-- decoder it is assumed that it reads such mappings into the struct.
pub load_config-save :
    (decode : Node → Result ConfigFile) (atoi : String → Option ℤ) (documents : String → Document)
    (path : String) (ps : List String) (c : Config)
    → Decodes decode
    → resolve_config_path (reads decode documents) ps ≡ some path
    → IsMergeable (documents path)
    → IsSaveable c
    → load_config atoi
        (reads decode (
          placed documents path
            (tree (render_config_yaml (documents path) (config_file_from_config c)))))
        no_env
        ps
      ≡ (prepare_config c, [])
unfolding load_config
load_config-save decode atoi documents path ps c d found h v =
    let file = config_file_from_config c in
    rw
      (
        fun_ext (placed-reads decode documents path file d h),
        read-resolve (reads decode documents) file path ps found,
      )
      (ap (λ x. (x, [])) (restored atoi c v))
