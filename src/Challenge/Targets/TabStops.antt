-- ===== src/Challenge/Targets/TabStops.antt =====
-- server/browser/common.go and the clickTabbableChallengeTarget of the backends: the tab stops.
use flaresolverr_go.Prelude.{
  ℕ, zero, suc, ◌<◌, String, true, false, not, ◌&&◌, ◌||◌, some, List, [], ◌∷◌, ◌++◌, ◌==◌,
  is_one_of, ltb, length, All, ◌≡◌, ◌≢◌, refl, ◌⊎◌, inl, inr, if_cases, if_both, arith, eq_iff,
  if◌then◌else◌,
}
use flaresolverr_go.Prelude.Int.{ℤ, pos, negsuc, leb_ℤ}
use flaresolverr_go.Challenge.Targets.{
  Floats, Target, whole, by_tag, tab_stops, all_tab_stops, target_key, unique, dedupe_targets,
  tabbable_targets, tab_position, nth, chosen_tab_stop,
}

All-++ : {A : Type 0} (Q : A → Type 0) (xs ys : List A) → All Q xs → All Q ys → All Q (xs ++ ys)
All-++ Q [] ys h k = k
All-++ Q (x ∷ xs) ys h k = (h.0, All-++ Q xs ys h.1 k)

All-map :
    {A : Type 0} (Q R : A → Type 0) (xs : List A) → ((x : A) → Q x → R x) → All Q xs → All R xs
All-map Q R [] f h = tt
All-map Q R (x ∷ xs) f h = (f x h.0, All-map Q R xs f h.1)

-- The target is one of these.
pub Among : {A : Type 0} → A → List A → Type 0
Among u [] = ⊥
Among u (t ∷ ts) = (u ≡ t) ⊎ Among u ts

nth-All :
    {A : Type 0} (Q : A → Type 0) (i : ℕ) (xs : List A)
    → All Q xs
    → i < length xs
    → (x : A) × (nth i xs ≡ some x) × Q x
unfolding nth
nth-All Q i [] h l = ground arith
nth-All Q zero (x ∷ xs) h l = (x, refl, h.0)
nth-All Q (suc i) (x ∷ xs) h l = nth-All Q i xs h.1 (ground arith)

tab_position-bound : (tabs : ℤ) (n : ℕ) → tab_position tabs (suc n) < suc n
unfolding tab_position
tab_position-bound (pos zero) n = ground arith
tab_position-bound (pos (suc i)) n = ground arith
tab_position-bound (negsuc i) n = ground arith

module _ (F : Floats) where
  -- The target can be seen and used, and takes up space.
  pub record IsUsable (t : Target F) : Type 0 where
    pub visible : t.visible ≡ true
    pub enabled : t.disabled ≡ false
    pub wide : F.at_most t.width (whole F 0) ≡ false
    pub high : F.at_most t.height (whole F 0) ≡ false

  -- No two targets have the same key.
  pub Distinct : List (Target F) → Type 0
  Distinct [] = Unit
  Distinct (t ∷ ts) = All (λ u. target_key F u ≢ target_key F t) ts × Distinct ts

  by_tag-All : (Q : Target F → Type 0) (t : Target F) → Q t → All Q (by_tag F t)
  unfolding by_tag
  by_tag-All Q t q =
      if_both (All Q) (is_one_of t.tag ("iframe" ∷ "button" ∷ "input" ∷ "textarea" ∷ "select" ∷ []))
        (q, tt) (if_both (All Q) ((t.tag == "a") && (t.src == "")) (q, tt) tt)

  tab_stops-All :
      (Q : Target F → Type 0) (t : Target F) → (IsUsable t → Q t) → All Q (tab_stops F t)
  unfolding tab_stops
  tab_stops-All Q t q =
      if_cases (All Q) (not t.visible || t.disabled || (t.id == "__flaresolverr-focus")) (λ _. tt)
        (λ a.
          if_cases (All Q) (F.at_most t.width (whole F 0) || F.at_most t.height (whole F 0))
            (λ _. tt)
            (λ b.
              let k = q (record {
                visible = ground arith;
                enabled = ground arith;
                wide = ground arith;
                high = ground arith;
              }) in
              if_both (All Q) (leb_ℤ (pos 0) t.tab_index) (k, tt)
                (All-++ Q (by_tag F t) (if t.role == "button" then t ∷ [] else [])
                  (by_tag-All Q t k) (if_both (All Q) (t.role == "button") (k, tt) tt))))

  abbrev Found : List (Target F) → Target F → Type 0
  Found ts u = Among u ts × IsUsable u

  all_tab_stops-All : (ts : List (Target F)) → All (Found ts) (all_tab_stops F ts)
  unfolding all_tab_stops Among
  all_tab_stops-All [] = tt
  all_tab_stops-All (t ∷ ts) =
      All-++ (Found (t ∷ ts)) (tab_stops F t) (all_tab_stops F ts)
        (tab_stops-All (Found (t ∷ ts)) t (λ u. (inl refl, u)))
        (All-map (Found ts) (Found (t ∷ ts)) (all_tab_stops F ts) (λ u h. (inr h.0, h.1))
          (all_tab_stops-All ts))

  unique-All :
      (Q : Target F → Type 0) (seen : List String) (ts : List (Target F))
      → All Q ts
      → All Q (unique F seen ts)
  unfolding unique
  unique-All Q seen [] h = tt
  unique-All Q seen (t ∷ ts) h =
      if_both (All Q) (is_one_of (target_key F t) seen) (unique-All Q seen ts h.1)
        (h.0, unique-All Q (target_key F t ∷ seen) ts h.1)

  dedupe-All :
      (Q : Target F → Type 0) (ts : List (Target F)) → All Q ts → All Q (dedupe_targets F ts)
  unfolding dedupe_targets
  dedupe-All Q ts h = if_both (All Q) (ltb (length ts) 2) h (unique-All Q [] ts h)

  abbrev Unseen : List String → Target F → Type 0
  Unseen seen u = is_one_of (target_key F u) seen ≡ false

  abbrev Fresh : List String → List (Target F) → Type 0
  Fresh seen ts = All (Unseen seen) ts × Distinct ts

  unique-Fresh : (seen : List String) (ts : List (Target F)) → Fresh seen (unique F seen ts)
  unfolding unique Distinct
  unique-Fresh seen [] = (tt, tt)
  unique-Fresh seen (t ∷ ts) =
      if_cases (Fresh seen) (is_one_of (target_key F t) seen) (λ _. unique-Fresh seen ts)
        (λ e.
          let k = target_key F t in
          let h = unique-Fresh (k ∷ seen) ts in
          (
            (
              e,
              All-map (Unseen (k ∷ seen)) (Unseen seen) (unique F (k ∷ seen) ts)
                  (λ u n. ground arith) h.0,
            ),
            (
              All-map (Unseen (k ∷ seen)) (λ u. target_key F u ≢ k) (unique F (k ∷ seen) ts)
                  (λ u n. ground (arith, eq_iff (target_key F u) k)) h.0,
              h.1,
            ),
          ))

  short-Distinct : (ts : List (Target F)) → ltb (length ts) 2 ≡ true → Distinct ts
  unfolding Distinct
  short-Distinct [] h = tt
  short-Distinct (t ∷ []) h = (tt, tt)
  short-Distinct (t ∷ u ∷ ts) h = ground arith

  dedupe-Distinct : (ts : List (Target F)) → Distinct (dedupe_targets F ts)
  unfolding dedupe_targets
  dedupe-Distinct ts =
      if_cases Distinct (ltb (length ts) 2) (short-Distinct ts) (λ _. (unique-Fresh [] ts).1)

  -- The tab stops among the targets of a page are targets of the page that are visible, enabled and
  -- have an area, and no two of them have the same key, though one target may have been collected
  -- twice; and if there are any, the index that clickTabbableChallengeTarget computes from its
  -- number of tabs, which may be 0 or negative, is that of one of them: it does not panic.
  pub tabbable_targets-AreStops :
      (ts : List (Target F)) (tabs : ℤ)
      → Distinct (tabbable_targets F ts)
        × ((tabbable_targets F ts ≡ [])
            ⊎ ((u : Target F) × (chosen_tab_stop tabs (tabbable_targets F ts) ≡ some u)
                × (Among u ts × IsUsable u)))
  unfolding tabbable_targets chosen_tab_stop
  tabbable_targets-AreStops ts tabs = (
    dedupe-Distinct (all_tab_stops F ts),
    chosen (tabbable_targets F ts)
        (dedupe-All (Found ts) (all_tab_stops F ts) (all_tab_stops-All ts)),
  )
    where
      chosen :
          (us : List (Target F))
          → All (Found ts) us
          → (us ≡ []) ⊎ ((u : Target F) × (chosen_tab_stop tabs us ≡ some u) × Found ts u)
      chosen [] h = inl refl
      chosen (u ∷ us) h = inr (
          nth-All (Found ts) (tab_position tabs (length (u ∷ us))) (u ∷ us) h
            (tab_position-bound tabs (length us)))
