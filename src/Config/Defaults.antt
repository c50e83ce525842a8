-- ===== src/Config/Defaults.antt =====
-- Preparing a configuration.
use flaresolverr_go.Prelude.{String, ◌≡◌, refl, none, some, arith, eq_iff, Option}
use flaresolverr_go.Prelude.Int.{ℤ}
use flaresolverr_go.Config.{
  Config, Proxy, canonical_log_level, with_defaults, prepare_config, default_text, default_int,
  default_proxy_of,
}
use flaresolverr_go.Config.Names.{
  IsLogLevel, canonical_log_level-IsLogLevel, canonical_log_level_idem,
}

default_text_idem : (v d : String) → default_text (default_text v d) d ≡ default_text v d
unfolding default_text
default_text_idem v d = ground (arith, eq_iff v "", eq_iff d "")

default_int_idem : (v d : ℤ) → default_int (default_int v d) d ≡ default_int v d
unfolding default_int
default_int_idem v d = ground arith

default_proxy_of_idem :
    (v d : Option Proxy) → default_proxy_of (default_proxy_of v d) d ≡ default_proxy_of v d
unfolding default_proxy_of
default_proxy_of_idem none none = refl
default_proxy_of_idem none (some p) = refl
default_proxy_of_idem (some p) d = refl

pub with_defaults_idem : (c : Config) → with_defaults (with_defaults c) ≡ with_defaults c
unfolding with_defaults
with_defaults_idem c = simp (default_text_idem, default_int_idem, default_proxy_of_idem)

default_text_of_IsLogLevel : {t : String} → IsLogLevel t → (d : String) → default_text t d ≡ t
unfolding default_text
default_text_of_IsLogLevel IsLogLevel.debug d = refl
default_text_of_IsLogLevel IsLogLevel.info d = refl
default_text_of_IsLogLevel IsLogLevel.warn d = refl
default_text_of_IsLogLevel IsLogLevel.error d = refl

-- A text with a canonical level keeps it under the default.
pub default_text-canonical_log_level :
    (s d : String) → default_text (canonical_log_level s) d ≡ canonical_log_level s
default_text-canonical_log_level s d =
    default_text_of_IsLogLevel (canonical_log_level-IsLogLevel s) d

-- Preparing a prepared configuration changes nothing, so every layer may prepare again.
pub prepare_config_idem : (c : Config) → prepare_config (prepare_config c) ≡ prepare_config c
unfolding prepare_config with_defaults
prepare_config_idem c = simp (
  default_text_idem, default_int_idem, default_proxy_of_idem, default_text-canonical_log_level,
  canonical_log_level_idem,
)
