-- ===== src/Browser.antt =====
-- server/browser/common.go: the environment of a process that a backend starts.
pub mod Environment
use flaresolverr_go.Prelude.{
  String, Bool, true, false, List, [], ◌∷◌, ◌<>◌, has_prefix, if◌then◌else◌,
}

module _ (prefix entry : String) where
  -- The loop of AppendWithEnv, and what follows it.
  replace_entries : Bool → List String → List String
  replace_entries true [] = []
  replace_entries false [] = entry ∷ []
  replace_entries true (item ∷ env) =
      let rest = replace_entries true env in if has_prefix item prefix then rest else item ∷ rest
  replace_entries false (item ∷ env) =
      let rest = replace_entries false env in
      let replaced = replace_entries true env in
      if has_prefix item prefix then entry ∷ replaced else item ∷ rest

unfoldable pub append_with_env : List String → String → String → List String
unfolding replace_entries
append_with_env env key value = replace_entries (key <> "=") ((key <> "=") <> value) false env
