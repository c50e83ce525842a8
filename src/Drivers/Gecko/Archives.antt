-- ===== src/Drivers/Gecko/Archives.antt =====
-- server/geckodriver_manager.go: what is taken out of an archive is the whole of one of its files.
use flaresolverr_go.Prelude.{
  String, [], ◌∷◌, ◌==◌, ◌≡◌, ◌≢◌, refl, sym, if_cases, Result, ok, err, ok-injective, arith,
  eq_iff,
}
use flaresolverr_go.Prelude.Acts.Triples.{explained-eq-ok}
use flaresolverr_go.Factory.{Machine}
use flaresolverr_go.Drivers.{Outside, ZipFiles, TarStream, end_of_archive, broken, entry}
use flaresolverr_go.Drivers.Whole.{
  IsDriver, IsDownloaded, IsName, zipped, streamed, Within, Streamed,
}
use flaresolverr_go.Drivers.Gecko.{
  tar_binary, zip_binary, extract_tar_gz, extract_zip_binary, extract_zip_from_stream, extracted,
}

zip_binary-Within :
    (m : Machine) (o : Outside) (name : String) (files : ZipFiles) (bytes : String)
    → bytes ≢ ""
    → zip_binary m o name files ≡ ok bytes
    → Within m name bytes files
unfolding zip_binary Within
zip_binary-Within m o name [] bytes n e = absurd (n (sym (ok-injective e)))
zip_binary-Within m o name (file ∷ files) bytes n e =
    ground (arith, eq_iff (m.base file.0) name, zip_binary-Within m o name files bytes n)

tar_binary-Streamed :
    (m : Machine) (o : Outside) (name : String) (stream : TarStream) (bytes : String)
    → bytes ≢ ""
    → tar_binary m o name stream ≡ ok bytes
    → Streamed m name bytes stream
unfolding tar_binary Streamed
tar_binary-Streamed m o name end_of_archive bytes n e = absurd (n (sym (ok-injective e)))
tar_binary-Streamed m o name (broken x) bytes n e = cc
tar_binary-Streamed m o name (entry path content rest) bytes n e =
    ground (arith, eq_iff (m.base path) name, tar_binary-Streamed m o name rest bytes n)

module _ (m : Machine) (o : Outside) where
  unzipped :
      (name bytes archive : String) (r : Result ZipFiles)
      → IsDownloaded m o (ok archive)
      → IsName m o name
      → bytes ≢ ""
      → o.open_zip archive ≡ r
      → (elim r [ err e ↦ err e | ok files ↦ zip_binary m o name files ]) ≡ ok bytes
      → IsDriver m o bytes
  unzipped name bytes archive (err x) g k n opened e = cc
  unzipped name bytes archive (ok files) g k n opened e =
      zipped archive name files g k n opened (zip_binary-Within m o name files bytes n e)

  zip_stream-IsDriver :
      (name bytes : String) (body : Result String)
      → IsDownloaded m o body
      → IsName m o name
      → bytes ≢ ""
      → extract_zip_from_stream m o body name ≡ ok bytes
      → IsDriver m o bytes
  unfolding extract_zip_from_stream extract_zip_binary
  zip_stream-IsDriver name bytes (err x) g k n e = cc
  zip_stream-IsDriver name bytes (ok archive) g k n e =
      unzipped name bytes archive (o.open_zip archive) g k n refl e

  untarred :
      (name bytes : String) (archive : Result String) (r : Result TarStream)
      → IsDownloaded m o archive
      → IsName m o name
      → bytes ≢ ""
      → o.open_tar_gz archive ≡ r
      → (elim r [ err e ↦ err e | ok stream ↦ tar_binary m o name stream ]) ≡ ok bytes
      → IsDriver m o bytes
  untarred name bytes archive (err x) g k n opened e = cc
  untarred name bytes archive (ok stream) g k n opened e =
      streamed archive name stream g k n opened (tar_binary-Streamed m o name stream bytes n e)

  tar_stream-IsDriver :
      (name bytes : String) (body : Result String)
      → IsDownloaded m o body
      → IsName m o name
      → bytes ≢ ""
      → extract_tar_gz m o body name ≡ ok bytes
      → IsDriver m o bytes
  unfolding extract_tar_gz
  tar_stream-IsDriver name bytes body g k n e =
      untarred name bytes body (o.open_tar_gz body) g k n refl e

  pub extracted-IsDriver :
      (name extension bytes : String) (body : Result String)
      → IsDownloaded m o body
      → IsName m o name
      → bytes ≢ ""
      → extracted m o name extension body ≡ ok bytes
      → IsDriver m o bytes
  unfolding extracted
  extracted-IsDriver name extension bytes body g k n =
      if_cases (λ (r : Result String). r ≡ ok bytes → IsDriver m o bytes) (extension == "tar.gz")
        (λ _. λ e.
          tar_stream-IsDriver name bytes body g k n
            (explained-eq-ok "extract geckodriver archive: " (extract_tar_gz m o body name) e))
        (λ _.
          if_cases (λ (r : Result String). r ≡ ok bytes → IsDriver m o bytes) (extension == "zip")
            (λ _. λ e. zip_stream-IsDriver name bytes body g k n (
              explained-eq-ok "extract geckodriver archive: "
                (extract_zip_from_stream m o body name) e))
            (λ _. λ e. cc))
