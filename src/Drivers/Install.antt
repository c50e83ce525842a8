-- ===== src/Drivers/Install.antt =====
-- server/driver_manager.go and server/geckodriver_manager.go: a request, and the file of a driver,
-- which is written beside its path and then renamed to it.
pub mod Kept
use flaresolverr_go.Prelude.{
  ℕ, String, Bool, true, false, Option, none, some, List, [], ◌∷◌, ◌==◌, ◌<>◌, trim, eqb,
  if◌then◌else◌, Error, failure, Result, ok, err,
}
use flaresolverr_go.Prelude.Acts.{Act, ◌>>=◌, ◌>>◌, skip, fail}
use flaresolverr_go.Prelude.Assoc.{Entries, lookup, insert, erase}
use flaresolverr_go.Service.Format.{show_ℕ}
use flaresolverr_go.Drivers.{
  Outside, World, Manage, note, Response, Event, http_get, make_dir, write_file, change_mode,
  rename_file, remove_file,
}

-- data, _ := io.ReadAll(resp.Body)
abbrev pub read_text : Result String → String
read_text (ok s) = s
read_text (err e) = ""

-- A response other than 200 is an error with its body.
unfoldable pub check_status : String → Response → Result Response
check_status prefix r =
    if eqb r.status_code 200
    then ok r
    else err (failure (prefix <> (show_ℕ r.status_code <> (": " <> trim (read_text r.body)))))

abbrev body_of : Result Response → Result String
body_of (ok r) = r.body
body_of (err e) = err e

abbrev pub checked : String → Result Response → Result Response
checked prefix (ok r) = check_status prefix r
checked prefix (err e) = err e

module _ (o : Outside) where
  abbrev pub http_request : String → String → Manage Response
  http_request url prefix = λ w. (checked prefix (o.http_get w.events url), note (http_get url) w)

  abbrev pub make_dirs : String → Manage (Unit {0})
  make_dirs path = λ w. (o.make_dir w.events path, note (make_dir path) w)

  -- os.WriteFile: a fault may leave a part of the data, or an empty file.
  written : String → String → Option (Error × Option String) → Manage (Unit {0})
  written path bytes none =
      λ w. (ok tt, note (write_file path) (record w { files = insert path bytes w.files }))
  written path bytes (some (e, none)) = λ w. (err e, note (write_file path) w)
  written path bytes (some (e, some left)) =
      λ w. (err e, note (write_file path) (record w { files = insert path left w.files }))

  unfoldable pub write : String → String → Manage (Unit {0})
  unfolding written
  write path bytes = λ w. written path bytes (o.write_fault w.events path) w

  -- _ = os.Remove(path)
  unfoldable pub remove : String → World → World
  remove path w =
      if o.remove_fails w.events path
      then note (remove_file path) w
      else note (remove_file path) (record w { files = erase path w.files })

  -- if err != nil { _ = os.Remove(tempPath); return err }
  or_remove : String → Result (Unit {0}) → World → Result (Unit {0}) × World
  unfolding remove
  or_remove path (ok x) w = (ok tt, w)
  or_remove path (err e) w = (err e, remove path w)

  abbrev make_executable : String → Manage (Unit {0})
  make_executable path =
      λ w. or_remove path (o.change_mode w.events path) (note (change_mode path) w)

  -- os.Rename: the file has its new name, or the disk is as it was.
  renamed : String → String → Result (Unit {0}) → World → World
  renamed source target (ok x) w = elim (lookup source w.files) [
    | none ↦ w
    | some bytes ↦ record w { files = insert target bytes (erase source w.files) }
  ]
  renamed source target (err e) w = w

  abbrev move : String → String → Manage (Unit {0})
  move source target = λ w.
      or_remove source (o.rename_file w.events source)
        (note (rename_file source target) (renamed source target (o.rename_file w.events source) w))

  -- The end of downloadChromeDriverArchive and of downloadGeckoDriverArchive.
  unfoldable pub install : String → String → Manage (Unit {0})
  unfolding write or_remove renamed
  install target bytes =
      make_dirs (o.parent target)
      >> write (target <> ".tmp") bytes
      >> make_executable (target <> ".tmp")
      >> move (target <> ".tmp") target
