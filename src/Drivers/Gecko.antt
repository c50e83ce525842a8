-- ===== src/Drivers/Gecko.antt =====
-- server/geckodriver_manager.go: geckodriver, from the configuration, the cache, a download or PATH.
pub mod Archives
pub mod Sound
use flaresolverr_go.Prelude.{
  String, not, Option, none, some, [], ◌∷◌, ◌==◌, ◌<>◌, trim, equal_fold, if◌then◌else◌, failure,
  Result, ok, err,
}
use flaresolverr_go.Prelude.Acts.{◌>>=◌, ◌>>◌, reads, demand, explained}
use flaresolverr_go.Config.{Config, with_defaults, is_blank}
use flaresolverr_go.Factory.{Machine, find_on_path}
use flaresolverr_go.Drivers.{
  Outside, World, Manage, ZipFiles, TarStream, end_of_archive, broken, entry,
  GeckoDriverReleaseAsset, GeckoDriverRelease, file_exists, resolve_path,
  get_managed_gecko_driver_path, store_managed_gecko_driver_path,
}
use flaresolverr_go.Drivers.Versions.{gecko_driver_platform}
use flaresolverr_go.Drivers.Keys.{match_gecko_driver_asset}
use flaresolverr_go.Drivers.Install.{http_request, install}
use flaresolverr_go.Drivers.Chrome.{cache_base, made}

abbrev pub gecko_driver_releases_url : String
gecko_driver_releases_url = "https://api.github.com/repos/mozilla/geckodriver/releases/latest"

module _ (m : Machine) (o : Outside) where
  unfoldable pub find_gecko_driver_binary : String
  unfolding find_on_path
  find_gecko_driver_binary = find_on_path m ("geckodriver" ∷ [])

  unfoldable pub fetch_gecko_driver_latest_release : Manage GeckoDriverRelease
  fetch_gecko_driver_latest_release = do
    r ← http_request o gecko_driver_releases_url "geckodriver releases request failed with "
    reads (λ w. explained "decode geckodriver release metadata: " (o.gecko_release r.body))

  tar_binary : String → TarStream → Result String
  tar_binary name end_of_archive = ok ""
  tar_binary name (broken e) = err e
  tar_binary name (entry path content rest) =
      let later = tar_binary name rest in if m.base path == name then content else later

  unfoldable pub extract_tar_gz : Result String → String → Result String
  unfolding tar_binary
  extract_tar_gz archive name = elim (o.open_tar_gz archive) [
    | err e ↦ err e
    | ok stream ↦ tar_binary name stream
  ]

  zip_binary : String → ZipFiles → Result String
  zip_binary name [] = ok ""
  zip_binary name (file ∷ files) =
      let rest = zip_binary name files in if m.base file.0 == name then file.1 else rest

  unfoldable pub extract_zip_binary : String → String → Result String
  unfolding zip_binary
  extract_zip_binary archive name = elim (o.open_zip archive) [
    | err e ↦ err e
    | ok files ↦ zip_binary name files
  ]

  unfoldable pub extract_zip_from_stream : Result String → String → Result String
  unfolding extract_zip_binary
  extract_zip_from_stream (ok archive) name = extract_zip_binary archive name
  extract_zip_from_stream (err e) name = err e

  -- The switch on the extension.
  unfoldable pub extracted : String → String → Result String → Result String
  unfolding extract_tar_gz extract_zip_from_stream
  extracted name extension body =
      if extension == "tar.gz"
      then explained "extract geckodriver archive: " (extract_tar_gz body name)
      else if extension == "zip"
      then explained "extract geckodriver archive: " (extract_zip_from_stream body name)
      else err (failure ("unsupported geckodriver archive extension " <> m.quote extension))

  unfoldable pub download_gecko_driver_archive :
      String → String → String → String → Manage (Unit {0})
  unfolding extracted
  download_gecko_driver_archive url target name extension = do
    r ← http_request o url "download geckodriver archive failed with "
    bytes ← reads (λ w. extracted name extension r.limited)
    demand (not (bytes == ""))
        (failure ("geckodriver binary " <> (name <> " not found in archive")))
    install o target bytes

  -- A cache of chromedrivers has that of the geckodrivers beside it.
  unfoldable pub managed_gecko_driver_cache_dir : Config → Manage String
  managed_gecko_driver_cache_dir cfg =
      if is_blank cfg.driver_cache_dir
      then made m o "create geckodriver cache dir: "
          (m.join_path (cache_base m o ∷ "flaresolverr-go" ∷ "geckodriver" ∷ []))
      else if equal_fold (m.base (o.clean cfg.driver_cache_dir)) "chromedriver"
      then made m o "create geckodriver cache dir: "
          (m.join_path (o.parent (o.clean cfg.driver_cache_dir) ∷ "geckodriver" ∷ []))
      else made m o "create driver cache dir: " cfg.driver_cache_dir

  asset_of : String → Option GeckoDriverReleaseAsset → Result GeckoDriverReleaseAsset
  asset_of version (some asset) = ok asset
  asset_of version none = err (
      failure (
        "geckodriver release "
        <> (version <> (" has no asset for " <> (o.goos <> ("/" <> o.goarch))))))

  stored : String → Manage String
  stored path = λ w. (ok path, store_managed_gecko_driver_path path w)

  -- if fileExists(finalPath) { ... }, and the download of the asset otherwise
  fetch_gecko_driver :
      GeckoDriverRelease → String → String → String → String → String → Manage String
  unfolding file_exists stored asset_of
  fetch_gecko_driver release version platform name extension target = λ w.
      if file_exists w target
      then stored target w
      else (do
        asset ←
            reads
              (λ w. asset_of version (match_gecko_driver_asset release.assets platform extension))
        download_gecko_driver_archive asset.browser_download_url target name extension
        stored target)
          w

  -- What is done under managedGeckoDriverMu when the cache is still empty.
  unfoldable pub fetch_latest : Config → Manage String
  unfolding fetch_gecko_driver
  fetch_latest cfg = do
    platform ← reads (λ w. gecko_driver_platform o.goos o.goarch)
    dir ← managed_gecko_driver_cache_dir cfg
    release ← fetch_gecko_driver_latest_release
    let version = trim release.tag_name
    demand (not (version == "")) (failure "geckodriver release metadata missing tag_name")
    fetch_gecko_driver release version platform.0 platform.1 platform.2
        (m.join_path (dir ∷ version ∷ platform.0 ∷ platform.1 ∷ []))

  locked_fetch : Config → String × World → Result String × World
  unfolding fetch_latest
  locked_fetch cfg (cached, w) = if not (cached == "") then (ok cached, w) else fetch_latest cfg w

  cached_or_fetched : Config → String × World → Result String × World
  unfolding locked_fetch
  cached_or_fetched cfg (cached, w) =
      if not (cached == "")
      then (ok cached, w)
      else locked_fetch cfg (get_managed_gecko_driver_path (o.meanwhile w))

  unfoldable pub ensure_managed_gecko_driver : Config → Manage String
  unfolding cached_or_fetched
  ensure_managed_gecko_driver cfg =
      λ w. cached_or_fetched (with_defaults cfg) (get_managed_gecko_driver_path w)

  unfoldable pub resolve_gecko_driver_path : Config → Manage String
  unfolding resolve_path
  resolve_gecko_driver_path given =
      resolve_path (with_defaults given) find_gecko_driver_binary
        (ensure_managed_gecko_driver (with_defaults given))
