-- ===== src/Prelude/Assoc.antt =====
-- Go's `map[string]V` as an association list: at most the first entry of a key counts.
use Prim.Native.String.{String}
use mathlib.Core.Path.{◌≡◌, refl}
use mathlib.Core.Option.{Option, none, some}
use mathlib.Core.List.{List, [], ◌∷◌}
use native.Mathlib.Omega.{arith}
use text.Mathlib.TextEquality.{eq_iff}
use flaresolverr_go.Prelude.Tests.{if◌then◌else◌}
use flaresolverr_go.Prelude.Text.{◌==◌}

-- The entries of a map.
abbrev pub Entries {ℓ} : Type ℓ → Type ℓ
Entries V = List (String × V)

module _ {ℓ} {V : Type ℓ} where
  -- Every entry of the key goes: delete(m, key).
  unfoldable pub erase : String → Entries V → Entries V
  erase key [] = []
  erase key (entry ∷ rest) = if entry.0 == key then erase key rest else entry ∷ erase key rest

  -- m[key] = value
  unfoldable pub insert : String → V → Entries V → Entries V
  insert key value [] = (key, value) ∷ []
  insert key value (entry ∷ rest) =
      if entry.0 == key then (key, value) ∷ rest else entry ∷ insert key value rest

  -- m[key]
  unfoldable pub lookup : String → Entries V → Option V
  lookup key [] = none
  lookup key (entry ∷ rest) = if entry.0 == key then some entry.1 else lookup key rest

  pub lookup-erase :
      (old key : String) (entries : Entries V)
      → lookup key (erase old entries) ≡ (if old == key then none else lookup key entries)
  unfolding lookup erase
  lookup-erase old key [] = ground arith
  lookup-erase old key (entry ∷ rest) =
      ground
        (arith, lookup-erase old key rest, eq_iff entry.0 old, eq_iff entry.0 key, eq_iff old key)

  pub lookup-insert :
      (new key : String) (value : V) (entries : Entries V)
      → lookup key (insert new value entries)
        ≡ (if new == key then some value else lookup key entries)
  unfolding lookup insert
  lookup-insert new key value [] = refl
  lookup-insert new key value (entry ∷ rest) = ground (
    arith,
    lookup-insert new key value rest,
    eq_iff entry.0 new,
    eq_iff entry.0 key,
    eq_iff new key,
  )
