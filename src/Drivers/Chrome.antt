-- ===== src/Drivers/Chrome.antt =====
-- server/driver_manager.go: chromedriver, from the configuration, the cache, a download or PATH.
pub mod Steps
pub mod Sound
use flaresolverr_go.Prelude.{
  ℕ, String, not, ◌&&◌, Option, none, some, List, [], ◌∷◌, ◌==◌, ◌<>◌, trim, join, ltb,
  if◌then◌else◌, Error, failure, wrap, Result, ok, err,
}
use flaresolverr_go.Prelude.Acts.{
  after, ◌>>=◌, ◌>>◌, done, fail, reads, demand, explained, explaining, attempt,
}
use flaresolverr_go.Config.{Config, with_defaults, is_blank}
use flaresolverr_go.Factory.{Machine, find_on_path, find_chrome_binary}
use flaresolverr_go.Drivers.{
  Outside, World, Manage, note, run_command, ChromeForTestingDownload, ZipFiles, file_exists,
  resolve_path, get_detected_chrome_version, store_detected_chrome_version,
  get_managed_chrome_driver_path, store_managed_chrome_driver_path,
}
use flaresolverr_go.Drivers.Versions.{
  parse_chrome_version_output, chrome_for_testing_platform, trim_slashes,
}
use flaresolverr_go.Drivers.Keys.{chrome_build_key, chrome_major}
use flaresolverr_go.Drivers.Install.{http_request, make_dirs, install}

-- const maxDriverArchiveBytes = 256 << 20
abbrev pub max_driver_archive_bytes : ℕ
max_driver_archive_bytes = 268435456

abbrev latest : Option Error → Option Error → Option Error
latest none last = last
latest (some e) last = some e

module _ (m : Machine) (o : Outside) where
  unfoldable pub find_chrome_driver_binary : String
  unfolding find_on_path
  find_chrome_driver_binary = find_on_path m ("chromedriver" ∷ "chromedriver-linux64" ∷ [])

  -- %q|%d|%d of the path, the size and the time of the file, or "" where it is not found.
  chrome_version_cache_key : String → Result String → String
  chrome_version_cache_key path (ok size_and_time) = path <> ("|" <> size_and_time)
  chrome_version_cache_key path (err e) = ""

  undetected : String → Option Error → Error
  undetected path (some e) = wrap ("detect chrome version from " <> (m.quote path <> " failed: ")) e
  undetected path none =
      failure ("detect chrome version from " <> (m.quote path <> " failed: no version in output"))

  -- for _, args := range [][]string{...}: a version in the output counts even of a command that
  -- failed.
  ask_browser : String → String → Option Error → List String → Manage String
  unfolding undetected
  ask_browser key path last [] = fail (undetected path last)
  ask_browser key path last (arg ∷ args) = λ w.
      let answer = o.run w.events path arg in
      let version = parse_chrome_version_output answer.0 in
      let rest = ask_browser key path (latest answer.1 last) args (note (run_command path arg) w) in
      if version == ""
      then rest
      else (ok version, store_detected_chrome_version key version (note (run_command path arg) w))

  cached_or_asked : String → String → String → Manage String
  unfolding ask_browser
  cached_or_asked key path cached =
      if cached == ""
      then ask_browser key path none ("--product-version" ∷ "--version" ∷ [])
      else done cached

  unfoldable pub detect_chrome_version : String → Manage String
  unfolding chrome_version_cache_key cached_or_asked
  detect_chrome_version path = λ w.
      let key = chrome_version_cache_key path (o.stat w.events path) in
      cached_or_asked key path (get_detected_chrome_version key w) w

  -- The endpoints of "chrome for testing".
  unfoldable pub fetch_chrome_for_testing : String → Manage String
  fetch_chrome_for_testing url =
      http_request o url ("chrome for testing request " <> (url <> " failed with ")) >>= λ r.
      reads (λ w. r.body)

  no_release : String → Option Error → Error
  no_release version (some e) =
      wrap ("resolve chromedriver version for chrome " <> (version <> ": ")) e
  no_release version none =
      failure
        ("resolve chromedriver version for chrome " <> (version <> ": no matching release found"))

  -- The version of an answer, or else what the next key has, after the last error so far.
  release_or : (Option Error → Manage String) → Option Error → Result String → Manage String
  release_or next last (err e) = next (some e)
  release_or next last (ok found) = if trim found == "" then next last else done (trim found)

  ask_releases : String → String → Option Error → List String → Manage String
  unfolding no_release release_or
  ask_releases base version last [] = fail (no_release version last)
  ask_releases base version last (key ∷ keys) =
      attempt (fetch_chrome_for_testing (base <> ("/LATEST_RELEASE_" <> key)))
      >>= release_or (λ so_far. ask_releases base version so_far keys) last

  unfoldable pub resolve_chrome_driver_version : Config → String → Manage String
  unfolding ask_releases
  resolve_chrome_driver_version cfg version = do
    build ← reads (λ w. chrome_build_key m.quote version)
    major ← reads (λ w. chrome_major m.quote version)
    ask_releases (trim_slashes cfg.chrome_for_testing_url) version none (build ∷ major ∷ [])

  url_for : String → String → List ChromeForTestingDownload → Result String
  url_for platform version [] = err (
      failure (
        "chromedriver download for platform "
        <> (platform <> (" not found in version " <> version))))
  url_for platform version (entry ∷ entries) =
      let rest = url_for platform version entries in
      if entry.platform == platform && not (is_blank entry.url) then ok entry.url else rest

  unfoldable pub resolve_chrome_driver_download_url : Config → String → String → Manage String
  unfolding url_for
  resolve_chrome_driver_download_url cfg version platform = do
    let endpoint =
        trim_slashes cfg.chrome_for_testing_url <> ("/" <> (o.path_escape version <> ".json"))
    body ← fetch_chrome_for_testing endpoint
    entries ←
        reads
          (λ w. explained "decode chrome for testing version metadata: " (o.chrome_downloads body))
    reads (λ w. url_for platform version entries)

  -- $XDG_CACHE_HOME, or the directory for temporary files.
  abbrev pub cache_base : String
  cache_base = elim o.user_cache_dir [
    | ok base ↦
        if is_blank base then m.join_path (o.temp_dir ∷ "flaresolverr-go-cache" ∷ []) else base
    | err e ↦ m.join_path (o.temp_dir ∷ "flaresolverr-go-cache" ∷ [])
  ]

  -- if err := os.MkdirAll(dir, 0o755); err != nil { ... }; return dir, nil
  abbrev pub made : String → String → Manage String
  made prefix path = explaining prefix (make_dirs o path) >> done path

  unfoldable pub managed_chrome_driver_cache_dir : Config → Manage String
  managed_chrome_driver_cache_dir cfg =
      if not (is_blank cfg.driver_cache_dir)
      then made "create driver cache dir: " cfg.driver_cache_dir
      else made "create driver cache dir: "
          (m.join_path (cache_base ∷ "flaresolverr-go" ∷ "chromedriver" ∷ []))

  unfoldable pub managed_chrome_driver_cache_key : Config → String → String → Manage String
  unfolding managed_chrome_driver_cache_dir
  managed_chrome_driver_cache_key cfg browser version = do
    dir ← managed_chrome_driver_cache_dir cfg
    done (
        join (browser ∷ version ∷ o.goos ∷ o.goarch ∷ dir ∷ trim cfg.chrome_for_testing_url ∷ [])
          "|")

  -- The first file of that name, or nothing: an empty file is none, too.
  find_binary : String → ZipFiles → Result String
  find_binary name [] = ok ""
  find_binary name (file ∷ files) =
      let rest = find_binary name files in if m.base file.0 == name then file.1 else rest

  unfoldable pub download_chrome_driver_archive : String → String → String → Manage (Unit {0})
  unfolding find_binary
  download_chrome_driver_archive url target name = do
    r ← http_request o url "download chromedriver archive failed with "
    archive ← reads (λ w. r.limited)
    demand (ltb (o.byte_count archive) max_driver_archive_bytes)
        (failure "chromedriver archive exceeds 268435456 bytes")
    files ← reads (λ w. explained "open chromedriver archive: " (o.open_zip archive))
    bytes ← reads (λ w. find_binary name files)
    demand (not (bytes == ""))
        (failure ("chromedriver binary " <> (name <> " not found in archive")))
    install o target bytes

  -- Under managedDriverMu, with a second look at the disk: others may have had the lock before.
  unfoldable pub locked_download : Config → String → String → String → String → Manage String
  unfolding file_exists
  locked_download cfg version platform name target = λ w.
      if file_exists w target
      then (ok target, w)
      else (do
        url ← resolve_chrome_driver_download_url cfg version platform
        download_chrome_driver_archive url target name
        done target)
          w

  unfoldable pub fetch_chrome_driver : Config → String → String → String → String → Manage String
  unfolding locked_download file_exists
  fetch_chrome_driver cfg version platform name target = λ w.
      if file_exists w target
      then (ok target, w)
      else locked_download cfg version platform name target (o.meanwhile w)

  unfoldable pub ensure_managed_chrome_driver_version : Config → String → Manage String
  unfolding fetch_chrome_driver
  ensure_managed_chrome_driver_version given browser_version = do
    let cfg = with_defaults given
    platform ← reads (λ w. chrome_for_testing_platform o.goos o.goarch)
    version ← resolve_chrome_driver_version cfg browser_version
    dir ← managed_chrome_driver_cache_dir cfg
    fetch_chrome_driver cfg version platform.0 platform.1
        (m.join_path (dir ∷ version ∷ platform.0 ∷ platform.1 ∷ []))

  -- The path of the cache, or else one that is ensured and stored.
  cached_or_ensured : Config → String → String → String × World → Result String × World
  unfolding ensure_managed_chrome_driver_version
  cached_or_ensured cfg key version (cached, w) =
      if not (cached == "")
      then (ok cached, w)
      else after (ensure_managed_chrome_driver_version cfg version w)
          (λ path. λ w. (ok path, store_managed_chrome_driver_path key path w))

  unfoldable pub ensure_managed_chrome_driver : Config → Manage String
  unfolding cached_or_ensured
  ensure_managed_chrome_driver given = do
    let cfg = with_defaults given
    let browser =
        if trim cfg.browser_path == "" then find_chrome_binary m else trim cfg.browser_path
    demand (not (browser == ""))
        (failure "chrome executable not found; cannot auto-download chromedriver")
    version ← detect_chrome_version browser
    key ← managed_chrome_driver_cache_key cfg browser version
    λ w. cached_or_ensured cfg key version (get_managed_chrome_driver_path key w)

  unfoldable pub resolve_chrome_driver_path : Config → Manage String
  unfolding resolve_path
  resolve_chrome_driver_path given =
      resolve_path (with_defaults given) find_chrome_driver_binary
        (ensure_managed_chrome_driver (with_defaults given))
