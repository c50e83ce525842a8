-- ===== src/Drivers.antt =====
-- server/driver_manager.go and server/geckodriver_manager.go: the caches of the driver managers,
-- the disk, and what the managers call. The network, the other programs, the archive formats and
-- the faults of the disk are arguments, whose answers depend on the calls before.
pub mod Install
pub mod Versions
pub mod Keys
pub mod Chrome
pub mod Gecko
pub mod Whole
pub mod Resolved
use flaresolverr_go.Prelude.{
  ℕ, String, Bool, true, false, Option, none, some, is_some, List, [], ◌∷◌, ◌==◌, not, trim,
  if◌then◌else◌, Error, Result, ok, err,
}
use flaresolverr_go.Prelude.Acts.{Act, ◌>>=◌, done, reads, attempt}
use flaresolverr_go.Prelude.Assoc.{Entries, lookup, insert, erase}
use flaresolverr_go.Config.{Config, is_blank}

-- The calls of the managers on the rest of the machine.
pub data Event : Type 0 where
  run_command : String → String → Event
  http_get : String → Event
  make_dir : String → Event
  write_file : String → Event
  change_mode : String → Event
  rename_file : String → String → Event
  remove_file : String → Event

-- What a response is read for: StatusCode and the body. `limited` is the body as it is read through
-- io.LimitReader(resp.Body, maxDriverArchiveBytes).
pub record Response : Type 0 where
  pub status_code : ℕ
  pub body : Result String
  pub limited : Result String

pub record ChromeForTestingDownload : Type 0 where
  pub platform : String
  pub url : String

pub record GeckoDriverReleaseAsset : Type 0 where
  pub name : String
  pub browser_download_url : String

pub record GeckoDriverRelease : Type 0 where
  pub tag_name : String
  pub assets : List GeckoDriverReleaseAsset

-- The entries of a zip archive: the name of each, and its content where it can be read.
abbrev pub ZipFiles : Type 0
ZipFiles = List (String × Result String)

-- The successive answers of tar.Reader.Next.
pub data TarStream : Type 0 where
  end_of_archive : TarStream
  broken : Error → TarStream
  entry : String → Result String → TarStream → TarStream

-- The package's variables and the disk. A file is its content; `events` has the last call first.
pub record World : Type 0 where
  pub files : Entries String
  pub detected_versions : Entries String
  pub chrome_paths : Entries String
  pub gecko_path : String
  pub events : List Event

-- runtime.GOOS and GOARCH, the files that the code only stats, exec, net/http, the faults of the
-- disk, os and filepath, the decoders, and what other goroutines do while a lock is waited for.
pub record Outside : Type 0 where
  pub goos : String
  pub goarch : String
  -- Size() and ModTime(), as `%d|%d` prints them.
  pub stat : List Event → String → Result String
  pub run : List Event → String → String → String × Option Error
  pub http_get : List Event → String → Result Response
  pub make_dir : List Event → String → Result (Unit {0})
  -- The error of a failed write, and what it left at the path where it left something.
  pub write_fault : List Event → String → Option (Error × Option String)
  pub change_mode : List Event → String → Result (Unit {0})
  pub rename_file : List Event → String → Result (Unit {0})
  pub remove_fails : List Event → String → Bool
  pub user_cache_dir : Result String
  pub temp_dir : String
  pub clean : String → String
  pub parent : String → String
  pub path_escape : String → String
  pub chrome_downloads : String → Result (List ChromeForTestingDownload)
  -- These two read a response as it comes in.
  pub gecko_release : Result String → Result GeckoDriverRelease
  pub open_tar_gz : Result String → Result TarStream
  pub open_zip : String → Result ZipFiles
  pub byte_count : String → ℕ
  pub meanwhile : World → World

abbrev pub Manage : Type 0 → Type 0
Manage A = Act World A

abbrev pub note : Event → World → World
note e w = record w { events = e ∷ w.events }

-- fileExists: here, of the files that the managers write.
unfoldable pub file_exists : World → String → Bool
file_exists w path = is_some (lookup path w.files)

-- m[key], which is "" where the key is missing.
abbrev text_or_empty : Option String → String
text_or_empty none = ""
text_or_empty (some s) = s

unfoldable pub get_detected_chrome_version : String → World → String
get_detected_chrome_version key w =
    if is_blank key then "" else text_or_empty (lookup key w.detected_versions)

unfoldable pub store_detected_chrome_version : String → String → World → World
store_detected_chrome_version key version w =
    if is_blank key
    then w
    else if is_blank version
    then w
    else record w { detected_versions = insert key version w.detected_versions }

-- A path whose file has gone is forgotten.
unfoldable pub get_managed_chrome_driver_path : String → World → String × World
unfolding file_exists
get_managed_chrome_driver_path key w =
    if is_blank key
    then ("", w)
    else if file_exists w (text_or_empty (lookup key w.chrome_paths))
    then (text_or_empty (lookup key w.chrome_paths), w)
    else ("", record w { chrome_paths = erase key w.chrome_paths })

unfoldable pub store_managed_chrome_driver_path : String → String → World → World
store_managed_chrome_driver_path key path w =
    if is_blank key
    then w
    else if is_blank path
    then w
    else record w { chrome_paths = insert key path w.chrome_paths }

unfoldable pub get_managed_gecko_driver_path : World → String × World
unfolding file_exists
get_managed_gecko_driver_path w =
    if w.gecko_path == ""
    then ("", w)
    else if file_exists w w.gecko_path
    then (w.gecko_path, w)
    else ("", record w { gecko_path = "" })

unfoldable pub store_managed_gecko_driver_path : String → World → World
store_managed_gecko_driver_path path w = if is_blank path then w else record w { gecko_path = path }

-- What PATH has, where nothing was downloaded, or else the error of the download.
or_on_path : String → Result String → Result String
or_on_path binary (ok path) = if is_blank path then ok binary else ok path
or_on_path binary (err e) = if binary == "" then err e else ok binary

-- resolveChromeDriverPath and resolveGeckoDriverPath, of the driver that is on PATH and of the code
-- that ensures one in the cache: a configured path comes first, and then the cache.
unfoldable pub resolve_path : Config → String → Manage String → Manage String
unfolding or_on_path
resolve_path cfg binary ensure =
    if not (is_blank cfg.driver_path)
    then done (trim cfg.driver_path)
    else if cfg.driver_auto_download
    then (attempt ensure >>= λ r. reads (λ w. or_on_path binary r))
    else done binary
