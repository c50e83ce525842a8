-- ===== src/Config/Names.antt =====
-- The canonical spellings are fixed points of their functions.
use flaresolverr_go.Prelude.{String, false, ◌≡◌, refl, trim, to_lower, if_both}
use flaresolverr_go.Config.{is_blank, canonical_browser_backend, canonical_log_level}

pub data IsBackend : String → Type 0 where
  gecko : IsBackend "geckodriver"
  chrome : IsBackend "chromedriver"
  auto : IsBackend "auto"

pub canonical_browser_backend-IsBackend : (s : String) → IsBackend (canonical_browser_backend s)
unfolding canonical_browser_backend
canonical_browser_backend-IsBackend s = if_both IsBackend _ gecko (if_both IsBackend _ chrome auto)

pub data IsLogLevel : String → Type 0 where
  debug : IsLogLevel "debug"
  info : IsLogLevel "info"
  warn : IsLogLevel "warn"
  error : IsLogLevel "error"

pub canonical_log_level-IsLogLevel : (s : String) → IsLogLevel (canonical_log_level s)
unfolding canonical_log_level
canonical_log_level-IsLogLevel s =
    if_both IsLogLevel _ debug (if_both IsLogLevel _ warn (if_both IsLogLevel _ error info))

pub canonical_browser_backend_fixed : {s : String} → IsBackend s → canonical_browser_backend s ≡ s
unfolding canonical_browser_backend trim to_lower
canonical_browser_backend_fixed gecko = refl
canonical_browser_backend_fixed chrome = refl
canonical_browser_backend_fixed auto = refl

pub canonical_log_level_fixed : {s : String} → IsLogLevel s → canonical_log_level s ≡ s
unfolding canonical_log_level trim to_lower
canonical_log_level_fixed debug = refl
canonical_log_level_fixed info = refl
canonical_log_level_fixed warn = refl
canonical_log_level_fixed error = refl

pub canonical_browser_backend_idem :
    (s : String)
    → canonical_browser_backend (canonical_browser_backend s) ≡ canonical_browser_backend s
canonical_browser_backend_idem s =
    canonical_browser_backend_fixed (canonical_browser_backend-IsBackend s)

pub canonical_log_level_idem :
    (s : String) → canonical_log_level (canonical_log_level s) ≡ canonical_log_level s
canonical_log_level_idem s = canonical_log_level_fixed (canonical_log_level-IsLogLevel s)

-- A canonical name is not blank.
pub IsBackend-is_blank : {s : String} → IsBackend s → is_blank s ≡ false
unfolding trim
IsBackend-is_blank gecko = refl
IsBackend-is_blank chrome = refl
IsBackend-is_blank auto = refl

pub IsLogLevel-is_blank : {s : String} → IsLogLevel s → is_blank s ≡ false
unfolding trim
IsLogLevel-is_blank debug = refl
IsLogLevel-is_blank info = refl
IsLogLevel-is_blank warn = refl
IsLogLevel-is_blank error = refl
