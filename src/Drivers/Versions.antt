-- ===== src/Drivers/Versions.antt =====
-- server/driver_manager.go and server/geckodriver_manager.go: the version of a browser in its
-- output, and the platforms that drivers are published for.
use Prim.Native.Char.{Char, code}
use Prim.Native.String.{String, [], ◌∷◌}
use flaresolverr_go.Prelude.{
  Bool, ◌&&◌, ◌||◌, Option, none, some, ◌==◌, ◌<>◌, eqb, leb, if◌then◌else◌, failure, Result, ok,
  err,
}

abbrev is_digit : Char → Bool
is_digit c = leb 48 (code c) && leb (code c) 57

-- The leading digits, and what follows them: \d*
digits : String → String × String
digits [] = ("", "")
digits (c ∷ s) = let rest = digits s in if is_digit c then (c ∷ rest.0, rest.1) else ("", c ∷ s)

-- One part of a version, \d+, in front of what the rest of the pattern matches.
part : (String → Option String) → String × String → Option String
part rest ([], s) = none
part rest (c ∷ d, s) = elim (rest s) [ none ↦ none | some found ↦ some (c ∷ (d <> found)) ]

dot : (String → Option String) → String → Option String
dot rest [] = none
dot rest (c ∷ s) = elim (rest s) [
  | none ↦ none
  | some found ↦ if eqb (code c) 46 then some ("." <> found) else none
]

-- What the pattern \d+\.\d+\.\d+\.\d+ matches at the start of the text. A part is all the digits
-- that stand there, since a dot or the end of the match follows them.
abbrev version_at : String → Option String
version_at s =
    part
      (dot (λ s.
        part (dot (λ s. part (dot (λ s. part (λ s. some "") (digits s))) (digits s))) (digits s)))
      (digits s)

-- chromeVersionRE.FindString: the leftmost match, or "".
unfoldable pub parse_chrome_version_output : String → String
unfolding digits part dot
parse_chrome_version_output [] = ""
parse_chrome_version_output (c ∷ s) =
    let rest = parse_chrome_version_output s in
    elim (version_at (c ∷ s)) [ none ↦ rest | some version ↦ version ]

unfoldable pub chrome_for_testing_platform : String → String → Result (String × String)
chrome_for_testing_platform goos goarch =
    if goos == "linux" && goarch == "amd64"
    then ok ("linux64", "chromedriver")
    else if goos == "darwin" && goarch == "amd64"
    then ok ("mac-x64", "chromedriver")
    else if goos == "darwin" && goarch == "arm64"
    then ok ("mac-arm64", "chromedriver")
    else if goos == "windows" && goarch == "386"
    then ok ("win32", "chromedriver.exe")
    else if goos == "windows" && (goarch == "amd64" || goarch == "arm64")
    then ok ("win64", "chromedriver.exe")
    else err (
        failure
          ("chrome for testing does not provide chromedriver for " <> (goos <> ("/" <> goarch))))

-- The platform, the name of the binary and the extension of the archive.
unfoldable pub gecko_driver_platform : String → String → Result (String × String × String)
gecko_driver_platform goos goarch =
    if goos == "linux" && goarch == "amd64"
    then ok ("linux64", "geckodriver", "tar.gz")
    else if goos == "linux" && goarch == "arm64"
    then ok ("linux-aarch64", "geckodriver", "tar.gz")
    else if goos == "linux" && goarch == "386"
    then ok ("linux32", "geckodriver", "tar.gz")
    else if goos == "darwin" && goarch == "amd64"
    then ok ("macos", "geckodriver", "tar.gz")
    else if goos == "darwin" && goarch == "arm64"
    then ok ("macos-aarch64", "geckodriver", "tar.gz")
    else if goos == "windows" && goarch == "amd64"
    then ok ("win64", "geckodriver.exe", "zip")
    else if goos == "windows" && goarch == "386"
    then ok ("win32", "geckodriver.exe", "zip")
    else if goos == "windows" && goarch == "arm64"
    then ok ("win-aarch64", "geckodriver.exe", "zip")
    else err (failure ("no geckodriver release published for " <> (goos <> ("/" <> goarch))))

-- strings.HasSuffix(s, t)
unfoldable pub has_suffix : String → String → Bool
has_suffix [] t = t == ""
has_suffix (c ∷ s) t = (c ∷ s) == t || has_suffix s t

-- strings.TrimRight(s, "/")
without_slash : Char → String → String
without_slash c [] = if eqb (code c) 47 then [] else c ∷ []
without_slash c (d ∷ s) = c ∷ d ∷ s

unfoldable pub trim_slashes : String → String
unfolding without_slash
trim_slashes [] = []
trim_slashes (c ∷ s) = without_slash c (trim_slashes s)
