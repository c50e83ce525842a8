-- ===== src/Drivers/Resolved.antt =====
-- server/driver_manager.go and server/geckodriver_manager.go: where the path of a driver is from.
use flaresolverr_go.Prelude.{
  String, true, false, not, ◌==◌, ◌≡◌, refl, arith, Result, ok, err, trim, if_cases,
}
use flaresolverr_go.Prelude.Acts.Triples.{Leaves}
use flaresolverr_go.Config.{Config, is_blank}
use flaresolverr_go.Factory.{Machine}
use flaresolverr_go.Drivers.{Outside, World, Manage, file_exists, or_on_path, resolve_path}
use flaresolverr_go.Drivers.Whole.{IsWhole, IsWhole-refl}

-- The path is the configured one, and nothing was done; or its file is on the disk, where
-- downloads are allowed; or it is the one on PATH.
pub data IsResolved (cfg : Config) (binary : String) (w s : World) (path : String) : Type 0 where
  configured :
      is_blank cfg.driver_path ≡ false
      → path ≡ trim cfg.driver_path
      → s ≡ w
      → IsResolved cfg binary w s path
  managed :
      is_blank cfg.driver_path ≡ true
      → cfg.driver_auto_download ≡ true
      → file_exists s path ≡ true
      → IsResolved cfg binary w s path
  on_path : is_blank cfg.driver_path ≡ true → path ≡ binary → IsResolved cfg binary w s path

module _ (m : Machine) (o : Outside) (cfg : Config) (binary : String) (w : World) where
  -- No driver was half written, and a path that is returned is resolved.
  pub Resolves : Result String × World → Type 0
  Resolves (ok path, s) = IsWhole m o w.files s.files × IsResolved cfg binary w s path
  Resolves (err e, s) = IsWhole m o w.files s.files

  ensured-Resolves :
      is_blank cfg.driver_path ≡ true
      → cfg.driver_auto_download ≡ true
      → (x : Result String × World)
      → Leaves
          (λ path s. IsWhole m o w.files s.files × (file_exists s path ≡ true))
          (λ s. IsWhole m o w.files s.files)
          x
      → Resolves (or_on_path binary x.0, x.1)
  unfolding Resolves or_on_path
  ensured-Resolves b d (ok path, s) h =
      if_cases (λ r. Resolves (r, s)) (is_blank path) (λ _. (h.0, on_path b refl))
        (λ _. (h.0, managed b d h.1))
  ensured-Resolves b d (err x, s) h =
      if_cases (λ r. Resolves (r, s)) (binary == "") (λ _. h) (λ _. (h, on_path b refl))

  pub resolve_path-Resolves :
      (ensure : Manage String)
      → Leaves
          (λ path s. IsWhole m o w.files s.files × (file_exists s path ≡ true))
          (λ s. IsWhole m o w.files s.files)
          (ensure w)
      → Resolves (resolve_path cfg binary ensure w)
  unfolding resolve_path Resolves
  resolve_path-Resolves ensure h =
      if_cases (λ (act : Manage String). Resolves (act w)) (not (is_blank cfg.driver_path))
        (λ b. (IsWhole-refl m o w.files, configured (ground arith) refl refl))
        (λ b.
          if_cases (λ (act : Manage String). Resolves (act w)) cfg.driver_auto_download
            (λ d. ensured-Resolves (ground arith) d (ensure w) h)
            (λ d. (IsWhole-refl m o w.files, on_path (ground arith) refl)))
