-- ===== src/Drivers/Chrome/Steps.antt =====
-- server/driver_manager.go: what the steps to a chromedriver keep.
use flaresolverr_go.Prelude.{
  String, not, Option, none, some, List, [], ◌∷◌, ◌==◌, ◌<>◌, ◌≡◌, ◌≢◌, sym, subst, inl, inr,
  Bool-cases, Error, Result, ok, err, ok-injective, arith, eq_iff, failure, trim, ltb,
}
use flaresolverr_go.Prelude.Acts.{◌>>=◌, ◌>>◌, done, explained}
use flaresolverr_go.Prelude.Acts.Triples.{
  Triple, bind, choice, returned, refused, kept, attempted, assuming, explained-eq-ok,
}
use flaresolverr_go.Config.{Config, is_blank}
use flaresolverr_go.Factory.{Machine}
use flaresolverr_go.Drivers.{
  Outside, World, Manage, note, run_command, ZipFiles, file_exists, store_detected_chrome_version,
  get_detected_chrome_version,
}
use flaresolverr_go.Drivers.Versions.{trim_slashes, parse_chrome_version_output}
use flaresolverr_go.Drivers.Keys.{chrome_build_key, chrome_major}
use flaresolverr_go.Drivers.Whole.{zipped, Within, IsName, IsDownloaded}
use flaresolverr_go.Drivers.Chrome.{
  find_binary, download_chrome_driver_archive, locked_download, resolve_chrome_driver_download_url,
  resolve_chrome_driver_version, ask_releases, release_or, no_release, ask_browser,
  chrome_version_cache_key, cached_or_asked, detect_chrome_version, managed_chrome_driver_cache_dir,
  managed_chrome_driver_cache_key, max_driver_archive_bytes, fetch_chrome_for_testing, latest,
  cache_base,
}
use flaresolverr_go.Drivers.Whole.Steps.{
  Kept, Found, Keeps, request-Kept, request-Answered, read-Kept, demanded-Kept, is_not_empty,
  install-Found, made-Keeps,
}

find_binary-Within :
    (m : Machine) (o : Outside) (name : String) (files : ZipFiles) (bytes : String)
    → bytes ≢ ""
    → find_binary m o name files ≡ ok bytes
    → Within m name bytes files
unfolding find_binary Within
find_binary-Within m o name [] bytes n e = absurd (n (sym (ok-injective e)))
find_binary-Within m o name (file ∷ files) bytes n e =
    ground (arith, eq_iff (m.base file.0) name, find_binary-Within m o name files bytes n)

module _ (m : Machine) (o : Outside) (w : World) where
  download-Triple :
      (url target name : String)
      → IsName m o name
      → Triple
          (Kept m o w)
          (download_chrome_driver_archive m o url target name)
          (λ _. (Found m o w) target)
          (Kept m o w)
  unfolding download_chrome_driver_archive
  download-Triple url target name known =
      bind (request-Answered m o w url "download chromedriver archive failed with ") λ r.
        assuming λ fetched. bind (read-Kept m o w r.limited) λ archive. assuming λ got.
          bind
            (demanded-Kept m o w (ltb (o.byte_count archive) max_driver_archive_bytes)
              (failure "chromedriver archive exceeds 268435456 bytes"))
            λ _. assuming λ fits.
              bind (read-Kept m o w (explained "open chromedriver archive: " (o.open_zip archive)))
                λ files. assuming λ opened.
                  bind (read-Kept m o w (find_binary m o name files)) λ bytes. assuming λ located.
                    bind
                      (demanded-Kept m o w (not (bytes == ""))
                        (failure ("chromedriver binary " <> (name <> " not found in archive"))))
                      λ _. assuming λ full. install-Found m o w target bytes (
                        zipped archive name files (subst (IsDownloaded m o) got fetched) known
                          (is_not_empty m o w bytes full)
                          (explained-eq-ok "open chromedriver archive: " (o.open_zip archive)
                            opened)
                          (find_binary-Within m o name files bytes (is_not_empty m o w bytes full)
                            located))

  fetch-Keeps : (url : String) → Keeps m o w (fetch_chrome_for_testing m o url)
  unfolding fetch_chrome_for_testing
  fetch-Keeps url =
      bind (request-Kept m o w url ("chrome for testing request " <> (url <> " failed with ")))
        λ r. kept λ s h. h

  url-Keeps :
      (cfg : Config) (version platform : String)
      → Keeps m o w (resolve_chrome_driver_download_url m o cfg version platform)
  unfolding resolve_chrome_driver_download_url
  url-Keeps cfg version platform =
      bind
        (fetch-Keeps
          (trim_slashes cfg.chrome_for_testing_url <> ("/" <> (o.path_escape version <> ".json"))))
        λ body.
          bind
            (read-Kept m o w
              (explained "decode chrome for testing version metadata: " (o.chrome_downloads body)))
            λ entries. assuming λ decoded. kept λ s h. h

  release-Keeps :
      (next : Option Error → Manage String) (last : Option Error) (answer : Result String)
      → ((so_far : Option Error) → Keeps m o w (next so_far))
      → Keeps m o w (release_or m o next last answer)
  unfolding release_or
  release-Keeps next last (err e) h = h (some e)
  release-Keeps next last (ok found) h =
      choice (trim found == "") (h last) (returned (trim found) (λ s h. h))

  releases-Keeps :
      (base version : String) (last : Option Error) (keys : List String)
      → Keeps m o w (ask_releases m o base version last keys)
  unfolding ask_releases
  releases-Keeps base version last [] = refused (no_release m o version last) (λ s h. h)
  releases-Keeps base version last (key ∷ keys) =
      bind (attempted (fetch-Keeps (base <> ("/LATEST_RELEASE_" <> key)))) λ answer.
        release-Keeps (λ so_far. ask_releases m o base version so_far keys) last answer
          (λ so_far. releases-Keeps base version so_far keys)

  pub version-Keeps :
      (cfg : Config) (version : String)
      → Keeps m o w (resolve_chrome_driver_version m o cfg version)
  unfolding resolve_chrome_driver_version
  version-Keeps cfg version = bind (read-Kept m o w (chrome_build_key m.quote version)) λ build.
      assuming λ _. bind (read-Kept m o w (chrome_major m.quote version)) λ major. assuming λ _.
        releases-Keeps (trim_slashes cfg.chrome_for_testing_url) version none (build ∷ major ∷ [])

  pub dir-Keeps : (cfg : Config) → Keeps m o w (managed_chrome_driver_cache_dir m o cfg)
  unfolding managed_chrome_driver_cache_dir
  dir-Keeps cfg =
      choice (not (is_blank cfg.driver_cache_dir))
        (made-Keeps m o w "create driver cache dir: " cfg.driver_cache_dir)
        (made-Keeps m o w "create driver cache dir: "
          (m.join_path (cache_base m o ∷ "flaresolverr-go" ∷ "chromedriver" ∷ [])))

  pub key-Keeps :
      (cfg : Config) (browser version : String)
      → Keeps m o w (managed_chrome_driver_cache_key m o cfg browser version)
  unfolding managed_chrome_driver_cache_key
  key-Keeps cfg browser version = bind (dir-Keeps cfg) λ dir. kept λ s h. h

  downloaded-Found :
      (cfg : Config) (version platform name target : String)
      → IsName m o name
      → Triple
          (Kept m o w)
          (resolve_chrome_driver_download_url m o cfg version platform >>= λ url.
            download_chrome_driver_archive m o url target name >> done target)
          (Found m o w)
          (Kept m o w)
  downloaded-Found cfg version platform name target known =
      bind (url-Keeps cfg version platform)
        λ url. bind (download-Triple url target name known) λ _. returned target (λ s h. h)

  pub locked-Found :
      (cfg : Config) (version platform name target : String)
      → IsName m o name
      → Triple
          (Kept m o w)
          (locked_download m o cfg version platform name target)
          (Found m o w)
          (Kept m o w)
  unfolding locked_download
  locked-Found cfg version platform name target known = record {
    holds = λ s h. elim (Bool-cases (file_exists s target)) [
      | inl e ↦ rw e (h, e)
      | inr e ↦ rw e ((downloaded-Found cfg version platform name target known).holds s h)
    ];
  }

  stored :
      (key version : String) (s : World)
      → (Kept m o w) s
      → (Kept m o w) (store_detected_chrome_version key version s)
  unfolding store_detected_chrome_version
  stored key version s h = elim (Bool-cases (is_blank key)) [
    | inl e ↦ rw e h
    | inr e ↦ elim (Bool-cases (is_blank version)) [ inl f ↦ rw (e, f) h | inr f ↦ rw (e, f) h ]
  ]

  asked :
      (key path : String) (last : Option Error) (args : List String) (s : World)
      → (Kept m o w) s
      → (Kept m o w) (ask_browser m o key path last args s).1
  unfolding ask_browser
  asked key path last [] s h = h
  asked key path last (arg ∷ args) s h =
      elim (Bool-cases (parse_chrome_version_output (o.run s.events path arg).0 == "")) [
        | inl e ↦ rw e (
            asked key path (latest (o.run s.events path arg).1 last) args
              (note (run_command path arg) s) h)
        | inr e ↦ rw e (
            stored key (parse_chrome_version_output (o.run s.events path arg).0)
              (note (run_command path arg) s) h)
      ]

  pub detect-Keeps : (path : String) → Keeps m o w (detect_chrome_version m o path)
  unfolding detect_chrome_version cached_or_asked
  detect-Keeps path = kept λ s h.
      let key = chrome_version_cache_key m o path (o.stat s.events path) in
      elim (Bool-cases (get_detected_chrome_version key s == "")) [
        | inl e ↦ rw e (asked key path none ("--product-version" ∷ "--version" ∷ []) s h)
        | inr e ↦ rw e h
      ]
