-- ===== src/Tests/Drivers.antt =====
-- Runs of the driver managers.
use flaresolverr_go.Prelude.{
  trim, to_lower, String, false, none, some, [], ◌∷◌, ◌≡◌, refl, Result, ok, err, failure,
}
use flaresolverr_go.Config.{
  Config, default_text, default_int, default_proxy_of, first_non_empty, default_config_values,
  with_defaults,
}
use flaresolverr_go.Factory.{Machine, find_on_path, find_chrome_binary}
use flaresolverr_go.Drivers.{
  Outside, World, entry, end_of_archive, file_exists, resolve_path, get_managed_gecko_driver_path,
  get_detected_chrome_version, get_managed_chrome_driver_path, store_detected_chrome_version,
  store_managed_chrome_driver_path,
}
use flaresolverr_go.Drivers.Whole.{IsWhole-refl}
use flaresolverr_go.Drivers.Whole.Steps.{OthersKeepDrivers}
use flaresolverr_go.Drivers.Resolved.{Resolves}
use flaresolverr_go.Drivers.Chrome.{
  ensure_managed_chrome_driver, detect_chrome_version, managed_chrome_driver_cache_key,
  resolve_chrome_driver_version, download_chrome_driver_archive,
  ensure_managed_chrome_driver_version, fetch_chrome_driver, fetch_chrome_for_testing,
  locked_download, managed_chrome_driver_cache_dir, resolve_chrome_driver_download_url,
  resolve_chrome_driver_path, find_chrome_driver_binary,
}
use flaresolverr_go.Drivers.Chrome.Sound.{resolve_chrome_driver_path-Resolves}
use flaresolverr_go.Drivers.Gecko.{
  fetch_gecko_driver_latest_release, managed_gecko_driver_cache_dir, download_gecko_driver_archive,
  resolve_gecko_driver_path, find_gecko_driver_binary, ensure_managed_gecko_driver,
}
use flaresolverr_go.Drivers.Gecko.Sound.{
  resolve_gecko_driver_path-Resolves, ensured_gecko_driver_is_cached,
}
use flaresolverr_go.Prelude.Assoc.{lookup, insert, erase}
use flaresolverr_go.Service.Format.{show_ℕ}
use flaresolverr_go.Drivers.Install.{check_status, install, write, remove}
use flaresolverr_go.Drivers.Keys.{
  match_gecko_driver_asset, chrome_build_key, chrome_major, split_dots,
}
use flaresolverr_go.Drivers.Versions.{
  gecko_driver_platform, chrome_for_testing_platform, parse_chrome_version_output, trim_slashes,
}

-- A machine whose browser is on PATH; each file of a driver has its own path.
abbrev machine : Machine
machine = record {
  look_path = λ name. some "/usr/bin/chrome";
  home = none;
  file_exists = λ path. false;
  looks_like_gecko_install = λ path. false;
  base = λ path. path;
  join_path = λ parts. "/cache/driver";
  quote = λ s. s;
  parse_url = λ s. err (failure "no url");
  geckodriver_path = λ cfg. ok "";
  chromedriver_path = λ cfg. ok "";
  start = λ backend c asked. ok 7;
}

-- A network that has one release of each driver, and a disk without faults.
abbrev outside : Outside
outside = record {
  goos = "linux";
  goarch = "amd64";
  stat = λ events path. ok "1|2";
  run = λ events path arg. ("Google Chrome 120.0.6099.109", none);
  http_get = λ events url.
      ok (record { status_code = 200; body = ok "120.0.6099.109"; limited = ok "archive" });
  make_dir = λ events path. ok tt;
  write_fault = λ events path. none;
  change_mode = λ events path. ok tt;
  rename_file = λ events path. ok tt;
  remove_fails = λ events path. false;
  user_cache_dir = ok "/cache";
  temp_dir = "/tmp";
  clean = λ path. path;
  parent = λ path. "/cache";
  path_escape = λ s. s;
  chrome_downloads =
      λ body. ok (record { platform = "linux64"; url = "https://example.org/a.zip" } ∷ []);
  gecko_release = λ body. ok (record {
    tag_name = "v0.34.0";
    assets =
        record {
          name = "geckodriver-v0.34.0-linux64.tar.gz";
          browser_download_url = "https://example.org/a.tar.gz";
        }
        ∷ [];
  });
  open_tar_gz = λ body. ok (entry "geckodriver" (ok "binary") end_of_archive);
  open_zip = λ archive. ok (("chromedriver", ok "binary") ∷ []);
  byte_count = λ s. 7;
  meanwhile = λ w. w;
}

abbrev fresh : World
fresh = record {
  files = [];
  detected_versions = [];
  chrome_paths = [];
  gecko_path = "";
  events = [];
}

others_keep : OthersKeepDrivers machine outside
unfolding OthersKeepDrivers
others_keep s = IsWhole-refl machine outside s.files

abbrev cfg : Config
cfg = default_config_values

resolve_chrome_driver_path-Resolves_example :
    Resolves machine outside
      (with_defaults cfg)
      (find_chrome_driver_binary machine outside)
      fresh
      (resolve_chrome_driver_path machine outside cfg fresh)
resolve_chrome_driver_path-Resolves_example =
    resolve_chrome_driver_path-Resolves machine outside fresh others_keep cfg

resolve_gecko_driver_path-Resolves_example :
    Resolves machine outside
      (with_defaults cfg)
      (find_gecko_driver_binary machine outside)
      fresh
      (resolve_gecko_driver_path machine outside cfg fresh)
resolve_gecko_driver_path-Resolves_example =
    resolve_gecko_driver_path-Resolves machine outside fresh others_keep cfg

abbrev ensured : Result String × World
ensured = ensure_managed_gecko_driver machine outside cfg fresh

-- chromedriver is downloaded.
downloads_chrome_driver :
    (resolve_chrome_driver_path machine outside cfg fresh).0 ≡ ok "/cache/driver"
unfolding resolve_chrome_driver_path default_config_values trim with_defaults default_text
    ensure_managed_chrome_driver find_chrome_binary detect_chrome_version
    get_detected_chrome_version lookup parse_chrome_version_output managed_chrome_driver_cache_key
    get_managed_chrome_driver_path store_detected_chrome_version chrome_for_testing_platform
    resolve_chrome_driver_version chrome_build_key split_dots chrome_major default_int
    default_proxy_of first_non_empty download_chrome_driver_archive
    ensure_managed_chrome_driver_version fetch_chrome_driver fetch_chrome_for_testing
    find_chrome_driver_binary locked_download managed_chrome_driver_cache_dir
    resolve_chrome_driver_download_url check_status install remove write trim_slashes file_exists
    resolve_path store_managed_chrome_driver_path find_on_path erase insert show_ℕ
downloads_chrome_driver = refl

ensured_gecko_driver_is_cached_example :
    ensure_managed_gecko_driver machine outside cfg ensured.1 ≡ (ok "/cache/driver", ensured.1)
unfolding ensure_managed_gecko_driver default_config_values get_managed_gecko_driver_path
    gecko_driver_platform managed_gecko_driver_cache_dir trim with_defaults default_text
    fetch_gecko_driver_latest_release check_status lookup match_gecko_driver_asset to_lower
    download_gecko_driver_archive install
ensured_gecko_driver_is_cached_example =
    ensured_gecko_driver_is_cached machine outside fresh others_keep cfg cfg "/cache/driver"
      ensured.1 refl refl
