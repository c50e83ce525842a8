-- ===== src/Drivers/Chrome/Sound.antt =====
-- server/driver_manager.go: a path that is returned has its driver, and no driver is ever half
-- written.
use flaresolverr_go.Prelude.{
  String, true, not, [], ◌∷◌, ◌==◌, ◌≡◌, ◌≢◌, refl, inl, inr, Bool-cases, if◌then◌else◌, ok, arith,
  eq_iff, failure, trim,
}
use flaresolverr_go.Prelude.Acts.{◌>>=◌}
use flaresolverr_go.Prelude.Acts.Triples.{Leaves, Triple, bind, assuming}
use flaresolverr_go.Prelude.Assoc.{lookup}
use flaresolverr_go.Config.{Config, is_blank, with_defaults}
use flaresolverr_go.Factory.{Machine, find_chrome_binary}
use flaresolverr_go.Drivers.{
  Outside, World, file_exists, get_managed_chrome_driver_path, store_managed_chrome_driver_path,
  text_or_empty,
}
use flaresolverr_go.Drivers.Versions.{chrome_for_testing_platform}
use flaresolverr_go.Drivers.Whole.{IsName, of_chrome, IsWhole-trans, IsWhole-refl}
use flaresolverr_go.Drivers.Resolved.{Resolves, resolve_path-Resolves}
use flaresolverr_go.Drivers.Chrome.{
  fetch_chrome_driver, ensure_managed_chrome_driver_version, resolve_chrome_driver_path,
  find_chrome_driver_binary, cached_or_ensured, ensure_managed_chrome_driver,
}
use flaresolverr_go.Drivers.Whole.Steps.{OthersKeepDrivers, Kept, Found, read-Kept, demanded-Kept}
use flaresolverr_go.Drivers.Chrome.Steps.{
  version-Keeps, dir-Keeps, key-Keeps, locked-Found, detect-Keeps,
}

module _ (m : Machine) (o : Outside) (w : World) where
  module _ (others : OthersKeepDrivers m o) where
    fetched-Found :
        (cfg : Config) (version platform name target : String)
        → IsName m o name
        → Triple
            (Kept m o w)
            (fetch_chrome_driver m o cfg version platform name target)
            (Found m o w)
            (Kept m o w)
    unfolding fetch_chrome_driver OthersKeepDrivers
    fetched-Found cfg version platform name target known = record {
      holds = λ s h. elim (Bool-cases (file_exists s target)) [
        | inl e ↦ rw e (h, e)
        | inr e ↦ rw e (
            (locked-Found m o w cfg version platform name target known).holds (o.meanwhile s)
              (IsWhole-trans m o w.files s.files (o.meanwhile s).files h (others s)))
      ];
    }

    version-Found :
        (cfg : Config) (version : String)
        → Triple
            (Kept m o w)
            (ensure_managed_chrome_driver_version m o cfg version)
            (Found m o w)
            (Kept m o w)
    unfolding ensure_managed_chrome_driver_version
    version-Found given version =
        bind (read-Kept m o w (chrome_for_testing_platform o.goos o.goarch)) λ platform.
          assuming λ supported. bind (version-Keeps m o w (with_defaults given) version) λ driver.
            bind (dir-Keeps m o w (with_defaults given)) λ dir.
              fetched-Found (with_defaults given) driver platform.0 platform.1
                (m.join_path (dir ∷ driver ∷ platform.0 ∷ platform.1 ∷ []))
                (of_chrome platform.0 supported)

    -- The result of a look into the cache.
    looked_up :
        (key : String) (s : World)
        → (Kept m o w) s
        → ((Kept m o w) (get_managed_chrome_driver_path key s).1)
          × ((get_managed_chrome_driver_path key s).0 ≢ ""
              → file_exists
                  (get_managed_chrome_driver_path key s).1
                  (get_managed_chrome_driver_path key s).0
                ≡ true)
    unfolding get_managed_chrome_driver_path
    looked_up key s h = elim (Bool-cases (is_blank key)) [
      | inl e ↦ rw e (h, λ n. absurd (n refl))
      | inr e ↦ elim (Bool-cases (file_exists s (text_or_empty (lookup key s.chrome_paths)))) [
        | inl f ↦ rw (e, f) (h, λ _. f)
        | inr f ↦ rw (e, f) (h, λ n. absurd (n refl))
      ]
    ]

    stored-Found :
        (key path : String) (s : World)
        → (Found m o w) path s
        → (Found m o w) path (store_managed_chrome_driver_path key path s)
    unfolding store_managed_chrome_driver_path file_exists
    stored-Found key path s h = elim (Bool-cases (is_blank key)) [
      | inl e ↦ rw e h
      | inr e ↦ elim (Bool-cases (is_blank path)) [ inl f ↦ rw (e, f) h | inr f ↦ rw (e, f) h ]
    ]

    cached_or_ensured-Leaves :
        (cfg : Config) (key version : String) (x : String × World)
        → (Kept m o w) x.1
        → (x.0 ≢ "" → file_exists x.1 x.0 ≡ true)
        → Leaves (Found m o w) (Kept m o w) (cached_or_ensured m o cfg key version x)
    unfolding cached_or_ensured
    cached_or_ensured-Leaves cfg key version (cached, s) h found =
        elim (Bool-cases (cached == "")) [
          | inl e ↦ rw e (later.holds s h)
          | inr e ↦ rw e (h, found (ground (arith, eq_iff cached "")))
        ]
      where
        later :
            Triple
              (Kept m o w)
              (ensure_managed_chrome_driver_version m o cfg version >>= λ path.
                λ w. (ok path, store_managed_chrome_driver_path key path w))
              (Found m o w)
              (Kept m o w)
        later =
            bind (version-Found cfg version)
              λ path. record { holds = λ s h. stored-Found key path s h }

    ensured-Found :
        (cfg : Config)
        → Triple (Kept m o w) (ensure_managed_chrome_driver m o cfg) (Found m o w) (Kept m o w)
    unfolding ensure_managed_chrome_driver
    ensured-Found given =
        let cfg = with_defaults given in
        let browser =
          if trim cfg.browser_path == "" then find_chrome_binary m else trim cfg.browser_path in
        bind
          (demanded-Kept m o w (not (browser == ""))
            (failure "chrome executable not found; cannot auto-download chromedriver"))
          λ _. assuming λ named. bind (detect-Keeps m o w browser) λ version.
            bind (key-Keeps m o w cfg browser version) λ key. record {
              holds = λ s h.
                  let x = looked_up key s h in
                  cached_or_ensured-Leaves cfg key version (get_managed_chrome_driver_path key s)
                    x.0 x.1;
            }

    -- The path that resolveChromeDriverPath returns is the configured one, of which nothing was
    -- asked, or one whose file is on the disk, where downloads are allowed, or the one on PATH; and
    -- with or without an error, every file of the disk is as it was or the whole of a driver's binary in
    -- a downloaded archive,
    -- except for temporary files. This is so when other goroutines write no half drivers either.
    pub resolve_chrome_driver_path-Resolves :
        (given : Config)
        → Resolves m o
            (with_defaults given)
            (find_chrome_driver_binary m o)
            w
            (resolve_chrome_driver_path m o given w)
    unfolding resolve_chrome_driver_path
    resolve_chrome_driver_path-Resolves given =
        resolve_path-Resolves m o (with_defaults given) (find_chrome_driver_binary m o) w
          (ensure_managed_chrome_driver m o (with_defaults given))
          ((ensured-Found (with_defaults given)).holds w (IsWhole-refl m o w.files))
