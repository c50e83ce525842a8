-- ===== src/Drivers/Whole.antt =====
-- server/driver_manager.go and server/geckodriver_manager.go: what the managers write to the disk.
pub mod Steps
use flaresolverr_go.Prelude.{
  ℕ, String, Bool, true, false, not, Option, none, some, is_some, List, [], ◌∷◌, ◌==◌, ◌<>◌, ◌≡◌,
  ◌≢◌, refl, sym, ◌∙◌, ap, ◌⊎◌, inl, inr, Bool-cases, if◌then◌else◌, Error, Result, ok, err, arith,
  eq_iff,
}
use flaresolverr_go.Prelude.Acts.{Act, ◌>>=◌, ◌>>◌, reads}
use flaresolverr_go.Prelude.Acts.Triples.{
  Leaves, Triple, bind, choice, returned, read, demanded, given,
}
use flaresolverr_go.Prelude.Assoc.{Entries, lookup, insert, erase, lookup-insert, lookup-erase}
use flaresolverr_go.Factory.{Machine}
use flaresolverr_go.Drivers.{
  Event, Response, Outside, World, Manage, note, ZipFiles, TarStream, entry, end_of_archive, broken,
  file_exists,
}
use flaresolverr_go.Drivers.Versions.{chrome_for_testing_platform, gecko_driver_platform}
use flaresolverr_go.Drivers.Install.{install, write, remove, make_dirs, http_request}

-- The file of the archive that has this name, and this content.
unfoldable pub Within : Machine → String → String → ZipFiles → Type 0
Within m name bytes [] = ⊥
Within m name bytes (file ∷ files) =
    ((m.base file.0 ≡ name) × (file.1 ≡ ok bytes)) ⊎ Within m name bytes files

unfoldable pub Streamed : Machine → String → String → TarStream → Type 0
Streamed m name bytes end_of_archive = ⊥
Streamed m name bytes (broken e) = ⊥
Streamed m name bytes (entry path content rest) =
    ((m.base path ≡ name) × (content ≡ ok bytes)) ⊎ Streamed m name bytes rest

module _ (m : Machine) (o : Outside) where
  -- The body of a response with status 200 to a GET.
  pub record IsDownloaded (body : Result String) : Type 0 where
    pub events : List Event
    pub url : String
    pub response : Response
    pub answered : o.http_get events url ≡ ok response
    pub status : response.status_code ≡ 200
    pub read : response.limited ≡ body

  -- What the binary of a driver is called on this system.
  pub data IsName (name : String) : Type 0 where
    of_chrome :
        (platform : String)
        → chrome_for_testing_platform o.goos o.goarch ≡ ok (platform, name)
        → IsName name
    of_gecko :
        (platform extension : String)
        → gecko_driver_platform o.goos o.goarch ≡ ok (platform, name, extension)
        → IsName name

  -- The bytes are the whole of a file, not an empty one, that has the name of a driver's binary in
  -- an archive that was downloaded.
  pub data IsDriver (bytes : String) : Type 0 where
    zipped :
        (archive name : String) (files : ZipFiles)
        → IsDownloaded (ok archive)
        → IsName name
        → bytes ≢ ""
        → o.open_zip archive ≡ ok files
        → Within m name bytes files
        → IsDriver bytes
    streamed :
        (archive : Result String) (name : String) (stream : TarStream)
        → IsDownloaded archive
        → IsName name
        → bytes ≢ ""
        → o.open_tar_gz archive ≡ ok stream
        → Streamed m name bytes stream
        → IsDriver bytes

  pub IsTemporary : String → Type 0
  IsTemporary path = (target : String) × (path ≡ target <> ".tmp")

  -- A file is as it was before, or a driver, except for temporary files.
  pub IsWhole : Entries String → Entries String → Type 0
  IsWhole old new =
      (path : String)
      → ¬ (IsTemporary path)
      → (lookup path new ≡ lookup path old)
        ⊎ ((bytes : String) × (lookup path new ≡ some bytes) × IsDriver bytes)

  pub IsWhole-refl : (w : Entries String) → IsWhole w w
  unfolding IsWhole
  IsWhole-refl w path h = inl refl

  pub IsWhole-trans : (w s t : Entries String) → IsWhole w s → IsWhole s t → IsWhole w t
  unfolding IsWhole
  IsWhole-trans w s t h k path n = elim (k path n) [
    | inr found ↦ inr found
    | inl same ↦ elim (h path n) [
      | inl before ↦ inl (same ∙ before)
      | inr (bytes, e, d) ↦ inr (bytes, same ∙ e, d)
    ]
  ]

  other_path : (path target : String) → ¬ (IsTemporary path) → (target <> ".tmp" == path) ≡ false
  unfolding IsTemporary
  other_path path target n = elim (Bool-cases (target <> ".tmp" == path)) [
    | inr h ↦ h
    | inl h ↦ absurd (n (target, sym ((eq_iff (target <> ".tmp") path).0 h)))
  ]

  pub insert-IsWhole :
      (w s : Entries String) (target bytes : String)
      → IsWhole w s
      → IsWhole w (insert (target <> ".tmp") bytes s)
  unfolding IsWhole
  insert-IsWhole w s target bytes h path n =
      rw (lookup-insert (target <> ".tmp") path bytes s, other_path path target n) (h path n)

  pub erase-IsWhole :
      (w s : Entries String) (target : String)
      → IsWhole w s
      → IsWhole w (erase (target <> ".tmp") s)
  unfolding IsWhole
  erase-IsWhole w s target h path n =
      rw (lookup-erase (target <> ".tmp") path s, other_path path target n) (h path n)

  pub insert_driver-IsWhole :
      (w s : Entries String) (target bytes : String)
      → IsDriver bytes
      → IsWhole w s
      → IsWhole w (insert target bytes s)
  unfolding IsWhole
  insert_driver-IsWhole w s target bytes d h path n = elim (Bool-cases (target == path)) [
    | inl e ↦ inr (bytes, rw (lookup-insert target path bytes s, e), d)
    | inr e ↦ rw (lookup-insert target path bytes s, e) (h path n)
  ]
