-- ===== src/Drivers/Gecko/Sound.antt =====
-- server/geckodriver_manager.go: a path that is returned has its driver, and no driver is ever half
-- written.
use flaresolverr_go.Prelude.{
  String, true, false, not, [], ◌∷◌, ◌==◌, ◌<>◌, ◌≡◌, ◌≢◌, refl, subst, ap, Bool-cases, inl, inr,
  if_cases, ok, eq_iff, failure, trim, equal_fold,
}
use flaresolverr_go.Prelude.Acts.{◌>>=◌, ◌>>◌, reads}
use flaresolverr_go.Prelude.Acts.Triples.{
  Leaves, Triple, bind, choice, leaves_weaker, kept, assuming,
}
use flaresolverr_go.Config.{Config, is_blank, with_defaults}
use flaresolverr_go.Factory.{Machine}
use flaresolverr_go.Drivers.{
  Outside, World, file_exists, get_managed_gecko_driver_path, store_managed_gecko_driver_path,
  GeckoDriverRelease,
}
use flaresolverr_go.Drivers.Versions.{gecko_driver_platform}
use flaresolverr_go.Drivers.Keys.{match_gecko_driver_asset}
use flaresolverr_go.Drivers.Whole.{IsName, of_gecko, IsWhole-trans, IsWhole-refl}
use flaresolverr_go.Drivers.Whole.Steps.{
  OthersKeepDrivers, Kept, Found, Keeps, request-Kept, request-Answered, read-Kept, demanded-Kept,
  is_not_empty, install-Found, made-Keeps,
}
use flaresolverr_go.Drivers.Resolved.{Resolves, resolve_path-Resolves}
use flaresolverr_go.Drivers.Chrome.{cache_base}
use flaresolverr_go.Drivers.Gecko.{
  extracted, download_gecko_driver_archive, gecko_driver_releases_url,
  fetch_gecko_driver_latest_release, managed_gecko_driver_cache_dir, asset_of, stored,
  fetch_gecko_driver, fetch_latest, locked_fetch, cached_or_fetched, ensure_managed_gecko_driver,
  find_gecko_driver_binary, resolve_gecko_driver_path,
}
use flaresolverr_go.Drivers.Gecko.Archives.{extracted-IsDriver}

module _ (m : Machine) (o : Outside) (w : World) where
  download-Found :
      (url target name extension : String)
      → IsName m o name
      → Triple
          (Kept m o w)
          (download_gecko_driver_archive m o url target name extension)
          (λ _. Found m o w target)
          (Kept m o w)
  unfolding download_gecko_driver_archive
  download-Found url target name extension known =
      bind (request-Answered m o w url "download geckodriver archive failed with ") λ r.
        assuming λ fetched. bind (read-Kept m o w (extracted m o name extension r.limited)) λ bytes.
          assuming λ got.
            bind
              (demanded-Kept m o w (not (bytes == ""))
                (failure ("geckodriver binary " <> (name <> " not found in archive"))))
              λ _. assuming λ full. install-Found m o w target bytes (
                extracted-IsDriver m o name extension bytes r.limited fetched known
                  (is_not_empty m o w bytes full) got)

  release-Keeps : Keeps m o w (fetch_gecko_driver_latest_release m o)
  unfolding fetch_gecko_driver_latest_release
  release-Keeps =
      bind
        (request-Kept m o w gecko_driver_releases_url "geckodriver releases request failed with ")
        λ r. kept λ s h. h

  dir-Keeps : (cfg : Config) → Keeps m o w (managed_gecko_driver_cache_dir m o cfg)
  unfolding managed_gecko_driver_cache_dir
  dir-Keeps cfg =
      choice (is_blank cfg.driver_cache_dir)
        (made-Keeps m o w "create geckodriver cache dir: "
          (m.join_path (cache_base m o ∷ "flaresolverr-go" ∷ "geckodriver" ∷ [])))
        (choice (equal_fold (m.base (o.clean cfg.driver_cache_dir)) "chromedriver")
          (made-Keeps m o w "create geckodriver cache dir: "
            (m.join_path (o.parent (o.clean cfg.driver_cache_dir) ∷ "geckodriver" ∷ [])))
          (made-Keeps m o w "create driver cache dir: " cfg.driver_cache_dir))

  -- The path stands in the cache, too.
  abbrev Ready : String → World → Type 0
  Ready path s = Found m o w path s × (is_blank path ≡ false → s.gecko_path ≡ path)

  stored-Found :
      (path : String) (s : World)
      → Found m o w path s
      → Ready path (store_managed_gecko_driver_path path s)
  unfolding store_managed_gecko_driver_path file_exists
  stored-Found path s h =
      if_cases (Ready path) (is_blank path) (λ e. (h, λ f. cc)) (λ e. (h, λ f. refl))

  asset-Found :
      (release : GeckoDriverRelease) (version platform name extension target : String)
      → IsName m o name
      → Triple
          (Kept m o w)
          (reads (λ (s : World).
              asset_of m o version (match_gecko_driver_asset release.assets platform extension))
            >>= λ asset.
                download_gecko_driver_archive m o asset.browser_download_url target name extension
                >> stored m o target)
          Ready
          (Kept m o w)
  unfolding stored
  asset-Found release version platform name extension target known =
      bind
        (read-Kept m o w
          (asset_of m o version (match_gecko_driver_asset release.assets platform extension)))
        λ asset. assuming λ _.
          bind (download-Found asset.browser_download_url target name extension known)
            λ _. record { holds = λ s h. stored-Found target s h }

  fetched-Found :
      (release : GeckoDriverRelease) (version platform name extension target : String)
      → IsName m o name
      → Triple
          (Kept m o w)
          (fetch_gecko_driver m o release version platform name extension target)
          Ready
          (Kept m o w)
  unfolding fetch_gecko_driver stored
  fetched-Found release version platform name extension target known = record {
    holds = λ s h. elim (Bool-cases (file_exists s target)) [
      | inl e ↦ rw e (stored-Found target s (h, e))
      | inr e ↦ rw e ((asset-Found release version platform name extension target known).holds s h)
    ];
  }

  latest-Found : (cfg : Config) → Triple (Kept m o w) (fetch_latest m o cfg) Ready (Kept m o w)
  unfolding fetch_latest
  latest-Found cfg = bind (read-Kept m o w (gecko_driver_platform o.goos o.goarch)) λ platform.
      assuming λ supported. bind (dir-Keeps cfg) λ dir. bind release-Keeps λ release.
        bind
          (demanded-Kept m o w (not (trim release.tag_name == ""))
            (failure "geckodriver release metadata missing tag_name"))
          λ _. assuming λ named.
            fetched-Found release (trim release.tag_name) platform.0 platform.1 platform.2
              (m.join_path (dir ∷ trim release.tag_name ∷ platform.0 ∷ platform.1 ∷ []))
              (of_gecko platform.0 platform.2 supported)

  -- A look into the cache: its path, if there is one, has its file.
  abbrev LookedUp : String × World → Type 0
  LookedUp x = Kept m o w x.1 × (x.0 ≢ "" → (file_exists x.1 x.0 ≡ true) × (x.1.gecko_path ≡ x.0))

  looked_up : (s : World) → Kept m o w s → LookedUp (get_managed_gecko_driver_path s)
  unfolding get_managed_gecko_driver_path
  looked_up s h =
      if_cases LookedUp (s.gecko_path == "") (λ _. (h, λ n. absurd (n refl)))
        (λ _.
          if_cases LookedUp (file_exists s s.gecko_path) (λ f. (h, λ _. (f, refl)))
            (λ _. (h, λ n. absurd (n refl))))

  cached :
      (s : World)
      → (s.gecko_path == "") ≡ false
      → file_exists s s.gecko_path ≡ true
      → get_managed_gecko_driver_path s ≡ (s.gecko_path, s)
  unfolding get_managed_gecko_driver_path
  cached s n f = simp (n, f)

  not_empty : (path : String) → is_blank path ≡ false → (path == "") ≡ false
  unfolding trim
  not_empty path b = elim (Bool-cases (path == "")) [
    | inl e ↦ let k : is_blank path ≡ true = ap is_blank ((eq_iff path "").0 e) in cc
    | inr e ↦ e
  ]

  answered :
      (cfg : Config) (path : String) (s : World)
      → is_blank path ≡ false
      → Ready path s
      → cached_or_fetched m o cfg (get_managed_gecko_driver_path s) ≡ (ok path, s)
  unfolding cached_or_fetched
  answered cfg path s b h =
      rw (cached s (rw (h.1 b) (not_empty path b)) (rw (h.1 b) h.0.1), h.1 b, not_empty path b) refl

  locked_fetch-Leaves :
      (cfg : Config) (x : String × World)
      → LookedUp x
      → Leaves Ready (Kept m o w) (locked_fetch m o cfg x)
  unfolding locked_fetch
  locked_fetch-Leaves cfg (cached, s) h =
      if_cases (Leaves Ready (Kept m o w)) (not (cached == ""))
        (λ e. let k = h.1 (is_not_empty m o w cached e) in ((h.0, k.0), λ _. k.1))
        (λ _. (latest-Found cfg).holds s h.0)

  module _ (others : OthersKeepDrivers m o) where
    cached_or_fetched-Leaves :
        (cfg : Config) (x : String × World)
        → LookedUp x
        → Leaves Ready (Kept m o w) (cached_or_fetched m o cfg x)
    unfolding cached_or_fetched OthersKeepDrivers
    cached_or_fetched-Leaves cfg (cached, s) h =
        if_cases (Leaves Ready (Kept m o w)) (not (cached == ""))
          (λ e. let k = h.1 (is_not_empty m o w cached e) in ((h.0, k.0), λ _. k.1))
          (λ _. locked_fetch-Leaves cfg (get_managed_gecko_driver_path (o.meanwhile s)) (
            looked_up (o.meanwhile s)
              (IsWhole-trans m o w.files s.files (o.meanwhile s).files h.0 (others s))))

    ensured-Ready :
        (cfg : Config) → Leaves Ready (Kept m o w) (ensure_managed_gecko_driver m o cfg w)
    unfolding ensure_managed_gecko_driver
    ensured-Ready cfg =
        cached_or_fetched-Leaves (with_defaults cfg) (get_managed_gecko_driver_path w)
          (looked_up w (IsWhole-refl m o w.files))

    -- Once ensureManagedGeckoDriver has returned a path that is not blank, another call returns it
    -- again and changes nothing, whatever the configuration is by then: no request is made and
    -- nothing is written. This is so when other goroutines write no half drivers.
    pub ensured_gecko_driver_is_cached :
        (cfg later : Config) (path : String) (s : World)
        → ensure_managed_gecko_driver m o cfg w ≡ (ok path, s)
        → is_blank path ≡ false
        → ensure_managed_gecko_driver m o later s ≡ (ok path, s)
    unfolding ensure_managed_gecko_driver
    ensured_gecko_driver_is_cached cfg later path s e b =
        answered (with_defaults later) path s b
          (subst (λ x. Leaves Ready (Kept m o w) x) e (ensured-Ready cfg))

    -- The path that resolveGeckoDriverPath returns is the configured one, of which nothing was
    -- asked, or one whose file is on the disk, where downloads are allowed, or the one on PATH; and
    -- with or without an error, every file of the disk is as it was or the whole of a driver's binary in
    -- a downloaded archive,
    -- except for temporary files. This is so when other goroutines write no half drivers either.
    pub resolve_gecko_driver_path-Resolves :
        (given : Config)
        → Resolves m o
            (with_defaults given)
            (find_gecko_driver_binary m o)
            w
            (resolve_gecko_driver_path m o given w)
    unfolding resolve_gecko_driver_path
    resolve_gecko_driver_path-Resolves given =
        let cfg = with_defaults given in
        resolve_path-Resolves m o cfg (find_gecko_driver_binary m o) w
          (ensure_managed_gecko_driver m o cfg)
          (leaves_weaker Ready (Found m o w) (Kept m o w) (ensure_managed_gecko_driver m o cfg w)
            (λ path s h. h.0) (ensured-Ready cfg))
