-- ===== src/Browser/Environment.antt =====
-- AppendWithEnv of server/browser/common.go sets one variable and leaves the others.
use text.Mathlib.TextPositions.{starts_with-append}
use flaresolverr_go.Prelude.{
  String, Bool, true, false, ◌≡◌, refl, ap, List, [], ◌∷◌, ◌<>◌, has_prefix, inl, inr, Bool-cases,
  if◌then◌else◌,
}
use flaresolverr_go.Browser.{replace_entries, append_with_env}

-- The entries without the prefix, in their order.
pub others : String → List String → List String
others prefix [] = []
others prefix (item ∷ env) =
    let rest = others prefix env in if has_prefix item prefix then rest else item ∷ rest

-- The entries with the prefix.
pub settings : String → List String → List String
settings prefix [] = []
settings prefix (item ∷ env) =
    let rest = settings prefix env in if has_prefix item prefix then item ∷ rest else rest

module _ (prefix entry : String) (h : has_prefix entry prefix ≡ true) where
  replaced_others :
      (done : Bool) (env : List String)
      → others prefix (replace_entries prefix entry done env) ≡ others prefix env
  unfolding others replace_entries
  replaced_others true [] = refl
  replaced_others false [] = rw h refl
  replaced_others true (item ∷ env) = elim (Bool-cases (has_prefix item prefix)) [
    | inl e ↦ rw e (replaced_others true env)
    | inr e ↦ rw (e, e) (ap (λ l. item ∷ l) (replaced_others true env))
  ]
  replaced_others false (item ∷ env) = elim (Bool-cases (has_prefix item prefix)) [
    | inl e ↦ rw (e, h) (replaced_others true env)
    | inr e ↦ rw (e, e) (ap (λ l. item ∷ l) (replaced_others false env))
  ]

  replaced_settings :
      (done : Bool) (env : List String)
      → settings prefix (replace_entries prefix entry done env) ≡ (if done then [] else entry ∷ [])
  unfolding settings replace_entries
  replaced_settings true [] = refl
  replaced_settings false [] = rw h refl
  replaced_settings true (item ∷ env) = elim (Bool-cases (has_prefix item prefix)) [
    | inl e ↦ rw e (replaced_settings true env)
    | inr e ↦ rw (e, e) (replaced_settings true env)
  ]
  replaced_settings false (item ∷ env) = elim (Bool-cases (has_prefix item prefix)) [
    | inl e ↦ rw (e, h) (ap (λ l. entry ∷ l) (replaced_settings true env))
    | inr e ↦ rw (e, e) (replaced_settings false env)
  ]

-- Setting a variable leaves exactly one entry for it, with the new value, and all entries for
-- other variables in their order.
pub append_with_env_lem :
    (env : List String) (key value : String)
    → (settings (key <> "=") (append_with_env env key value) ≡ ((key <> "=") <> value) ∷ [])
      × (others (key <> "=") (append_with_env env key value) ≡ others (key <> "=") env)
unfolding append_with_env
append_with_env_lem env key value = (
  replaced_settings (key <> "=") ((key <> "=") <> value) (starts_with-append (key <> "=") value)
      false env,
  replaced_others (key <> "=") ((key <> "=") <> value) (starts_with-append (key <> "=") value) false
      env,
)
