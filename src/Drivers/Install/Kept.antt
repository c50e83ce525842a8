-- ===== src/Drivers/Install/Kept.antt =====
-- server/driver_manager.go and server/geckodriver_manager.go: a driver is installed whole or not at
-- all.
use flaresolverr_go.Prelude.{
  String, Option, none, some, ◌<>◌, ◌≡◌, refl, inl, inr, Bool-cases, Error, Result, ok, err, eq_iff,
}
use flaresolverr_go.Prelude.Acts.Triples.{Leaves, Triple, bind, kept}
use flaresolverr_go.Prelude.Assoc.{Entries, lookup, insert, erase, lookup-insert}
use flaresolverr_go.Factory.{Machine}
use flaresolverr_go.Drivers.{Outside, World, note, change_mode, rename_file}
use flaresolverr_go.Drivers.Install.{install, written, remove, or_remove, renamed}
use flaresolverr_go.Drivers.Whole.{
  IsWhole, IsDriver, insert-IsWhole, erase-IsWhole, insert_driver-IsWhole,
}

module _ (m : Machine) (o : Outside) (w : World) (target : String) where
  abbrev temporary : String
  temporary = target <> ".tmp"

  abbrev Kept : World → Type 0
  Kept s = IsWhole m o w.files s.files

  -- The temporary file holds the bytes.
  abbrev Prepared : String → World → Type 0
  Prepared bytes s = Kept s × (lookup temporary s.files ≡ some bytes)

  lookup-insert_self :
      (path bytes : String) (files : Entries String)
      → lookup path (insert path bytes files) ≡ some bytes
  lookup-insert_self path bytes files =
      rw (lookup-insert path path bytes files, (eq_iff path path).1 refl)

  written-Leaves :
      (bytes : String) (fault : Option (Error × Option String)) (s : World)
      → Kept s
      → Leaves (λ (_ : Unit {0}). Prepared bytes) Kept (written o temporary bytes fault s)
  unfolding written
  written-Leaves bytes none s h = (
    insert-IsWhole m o w.files s.files target bytes h,
    lookup-insert_self temporary bytes s.files,
  )
  written-Leaves bytes (some (e, none)) s h = h
  written-Leaves bytes (some (e, some left)) s h = insert-IsWhole m o w.files s.files target left h

  removed : (s : World) → Kept s → Kept (remove o temporary s)
  unfolding remove
  removed s h = elim (Bool-cases (o.remove_fails s.events temporary)) [
    | inl e ↦ rw e h
    | inr e ↦ rw e (erase-IsWhole m o w.files s.files target h)
  ]

  or_remove-Leaves :
      (Q : World → Type 0) (r : Result (Unit {0})) (s : World)
      → (r ≡ ok tt → Q s)
      → Kept s
      → Leaves (λ (_ : Unit {0}). Q) Kept (or_remove o temporary r s)
  unfolding or_remove
  or_remove-Leaves Q (ok tt) s q h = q refl
  or_remove-Leaves Q (err e) s q h = removed s h

  -- The bytes stand at the path of the driver.
  abbrev Installed : String → World → Type 0
  Installed bytes s = Kept s × (lookup target s.files ≡ some bytes)

  renamed-Kept :
      (bytes : String)
      → IsDriver m o bytes
      → (r : Result (Unit {0})) (s : World) → Prepared bytes s
      → Kept (renamed o temporary target r s)
        × (r ≡ ok tt → lookup target (renamed o temporary target r s).files ≡ some bytes)
  unfolding renamed
  renamed-Kept bytes d (err e) s h = (h.0, λ e'. cc)
  renamed-Kept bytes d (ok x) s h =
      rw (renamed, h.1)
        (
          insert_driver-IsWhole m o w.files (erase temporary s.files) target bytes d
              (erase-IsWhole m o w.files s.files target h.0),
          λ e. lookup-insert_self target bytes (erase temporary s.files),
        )

  pub install-Triple :
      (bytes : String)
      → IsDriver m o bytes
      → Triple Kept (install o target bytes) (λ _. Installed bytes) Kept
  unfolding install
  install-Triple bytes d =
      bind
        (bind
          (bind {Q = λ _. Kept} (kept λ s h. h) (λ _. record {
            holds = λ s h. written-Leaves bytes (o.write_fault s.events temporary) s h;
          }))
          (λ _. record {
            holds = λ s h.
                or_remove-Leaves (Prepared bytes) (o.change_mode s.events temporary)
                  (note (change_mode temporary) s) (λ e. h) h.0;
          }))
        (λ _. record {
          holds = λ s h.
              let k = renamed-Kept bytes d (o.rename_file s.events temporary) s h in
              or_remove-Leaves (Installed bytes) (o.rename_file s.events temporary)
                (note (rename_file temporary target)
                  (renamed o temporary target (o.rename_file s.events temporary) s))
                (λ e. (k.0, k.1 e)) k.0;
        })
