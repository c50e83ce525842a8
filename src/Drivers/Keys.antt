-- ===== src/Drivers/Keys.antt =====
-- server/driver_manager.go and server/geckodriver_manager.go: the release that goes with a version,
-- and the asset of a release.
use Prim.Native.Char.{Char, code}
use flaresolverr_go.Prelude.{
  String, Option, none, some, List, [], ◌∷◌, ◌==◌, ◌<>◌, eqb, trim, to_lower, join, if◌then◌else◌,
  failure, Result, ok, err,
}
use flaresolverr_go.Drivers.{GeckoDriverReleaseAsset}
use flaresolverr_go.Drivers.Versions.{has_suffix}

-- The parts of a text between its dots: strings.Split(s, ".")
onto : Char → List String → List String
onto c [] = String.◌∷◌ c "" ∷ []
onto c (p ∷ ps) = String.◌∷◌ c p ∷ ps

unfoldable pub split_dots : String → List String
unfolding onto
split_dots String.[] = "" ∷ []
split_dots (String.◌∷◌ c s) =
    let rest = split_dots s in if eqb (code c) 46 then "" ∷ rest else onto c rest

invalid_version : String → Result String
invalid_version quoted = err (failure ("invalid chrome version " <> quoted))

build_key : String → List String → Result String
unfolding invalid_version
build_key quoted (a ∷ b ∷ c ∷ ps) = ok (join (a ∷ b ∷ c ∷ []) ".")
build_key quoted ps = invalid_version quoted

major_key : String → List String → Result String
unfolding invalid_version
major_key quoted [] = invalid_version quoted
major_key quoted (p ∷ ps) = if trim p == "" then invalid_version quoted else ok p

module _ (quote : String → String) where
  unfoldable pub chrome_build_key : String → Result String
  unfolding build_key
  chrome_build_key version = build_key (quote version) (split_dots (trim version))

  unfoldable pub chrome_major : String → Result String
  unfolding major_key
  chrome_major version = major_key (quote version) (split_dots (trim version))

unfoldable pub match_gecko_driver_asset :
    List GeckoDriverReleaseAsset → String → String → Option GeckoDriverReleaseAsset
unfolding has_suffix
match_gecko_driver_asset [] platform extension = none
match_gecko_driver_asset (a ∷ assets) platform extension =
    let rest = match_gecko_driver_asset assets platform extension in
    if has_suffix (to_lower (trim a.name)) ("-" <> (platform <> ("." <> extension)))
    then some a
    else rest
