-- ===== src/Config/Yaml/Merge.antt =====
-- server/config.go: what mergeMapping leaves at each key.
use flaresolverr_go.Prelude.{
  String, Bool, true, false, not, ◌&&◌, ◌||◌, Option, none, some, is_some, List, [], ◌∷◌, ◌==◌, ◌≡◌,
  refl, ap, subst, ◌∙◌, is_one_of, if◌then◌else◌, if_cases, arith, eq_iff, Bool-cases, inl, inr,
}
use flaresolverr_go.Prelude.Assoc.{lookup}
use flaresolverr_go.Config.Yaml.{
  Node, scalar, mapping, other, Fields, end, field, text, find, has, put, emptied, clear,
  merge_node, merge_fields, merge_mapping, present,
}

-- No key stands twice.
unfoldable pub Distinct : Fields → Type 0
Distinct end = Unit
Distinct (field key value rest) = (has key rest ≡ false) × Distinct rest

-- What stands at a key after a value was put there.
abbrev changed : (Node → Node) → Node → Option Node → Node
changed change value none = value
changed change value (some old) = change old

has_no : {A : Type 0} (o : Option A) → is_some o ≡ false → o ≡ none
has_no none h = refl
has_no (some v) h = cc

find-put :
    (change : Node → Node) (value : Node) (key k : String) (fields : Fields)
    → Distinct fields
    → find k (put change value key fields)
      ≡ (if key == k then some (changed change value (find key fields)) else find k fields)
unfolding find put Distinct
find-put change value key k end d = ground (arith, eq_iff key k)
find-put change value key k (field l old rest) d =
    ground
      (arith, find-put change value key k rest d.1, eq_iff l key, eq_iff l k, eq_iff key k, d.0)

Distinct-put :
    (change : Node → Node) (value : Node) (key : String) (fields : Fields)
    → Distinct fields
    → Distinct (put change value key fields)
unfolding find put Distinct
Distinct-put change value key end d = (refl, tt)
Distinct-put change value key (field l old rest) d =
    if_cases Distinct (l == key && not (has key rest)) (λ _. d)
      (λ b. (
        ap is_some (find-put change value key l rest d.1)
            ∙ ground (arith, eq_iff l key, eq_iff key l, d.0),
        Distinct-put change value key rest d.1,
      ))

module _ (owned : List String) where
  -- The value of a key that has one in the settings, in the file, or in both.
  unfoldable pub merged : Option Node → Option Node → Option Node
  merged none old = old
  merged (some value) none = some value
  merged (some value) (some old) = some (merge_node owned value old)

  merged-changed :
      (value : Node) (o : Option Node)
      → some (changed (merge_node owned value) value o) ≡ merged (some value) o
  unfolding merged
  merged-changed value none = refl
  merged-changed value (some old) = refl

  find-merge_fields :
      (set old : Fields) (k : String)
      → Distinct set
      → Distinct old
      → find k (merge_fields owned set old) ≡ merged (find k set) (find k old)
  unfolding merge_fields find merged Distinct
  find-merge_fields end old k d e = refl
  find-merge_fields (field key value rest) old k d e =
      find-merge_fields rest (put (merge_node owned value) value key old) k d.1
        (Distinct-put (merge_node owned value) value key old e)
      ∙ (ap (merged (find k rest)) (find-put (merge_node owned value) value key k old e) ∙ at_key)
    where
      at_key :
          merged (find k rest) (
            if key == k
            then some (changed (merge_node owned value) value (find key old))
            else find k old)
          ≡ merged (if key == k then some value else find k rest) (find k old)
      at_key = elim (Bool-cases (key == k)) [
        | inr e' ↦ rw e' refl
        | inl e' ↦
            let q = (eq_iff key k).0 e' in
            rw (e', has_no (find k rest) (subst (λ j. has j rest ≡ false) q d.0))
              (merged-changed value (find key old) ∙ ap (λ j. merged (some value) (find j old)) q)
      ]

  Distinct-merge_fields : (set old : Fields) → Distinct old → Distinct (merge_fields owned set old)
  unfolding merge_fields
  Distinct-merge_fields end old e = e
  Distinct-merge_fields (field key value rest) old e =
      Distinct-merge_fields rest (put (merge_node owned value) value key old)
        (Distinct-put (merge_node owned value) value key old e)

  -- What is left of a key that the settings dropped.
  unfoldable pub blanked : Option Node → Option Node
  blanked none = none
  blanked (some (scalar s)) = some (scalar (text ""))
  blanked (some (mapping fields)) = none
  blanked (some other) = none

  abbrev kept : Fields → String → Bool
  kept set k = not (is_one_of k owned) || has k set

  find-emptied :
      (key k : String) (value : Node) (rest : Fields)
      → (key ≡ k → find k rest ≡ none)
      → find k (emptied key value rest) ≡ (if key == k then blanked (some value) else find k rest)
  unfolding emptied find blanked
  find-emptied key k (scalar s) rest h = refl
  find-emptied key k (mapping fields) rest h = ground (arith, eq_iff key k, h)
  find-emptied key k other rest h = ground (arith, eq_iff key k, h)

  blanked_if : (b : Bool) (o : Option Node) → o ≡ none → (if b then o else blanked o) ≡ none
  unfolding blanked
  blanked_if true o e = e
  blanked_if false o e = rw e refl

  find-clear :
      (set old : Fields) (k : String)
      → Distinct old
      → find k (clear owned set old) ≡ (if kept set k then find k old else blanked (find k old))
  unfolding clear find Distinct blanked
  find-clear set end k d = ground arith
  find-clear set (field key value rest) k d =
      let known = find-clear set rest k d.1 in
      let gone = λ (q : key ≡ k).
        known
        ∙ blanked_if (kept set k) (find k rest)
            (has_no (find k rest) (subst (λ j. has j rest ≡ false) q d.0)) in
      if_cases
        (λ fs. find k fs ≡ (
          if kept set k
          then (if key == k then some value else find k rest)
          else blanked (if key == k then some value else find k rest)))
        (kept set key)
        (λ b. elim (Bool-cases (key == k)) [
          | inr e ↦ rw e known
          | inl e ↦ rw (e, subst (λ j. kept set j ≡ true) ((eq_iff key k).0 e) b) refl
        ])
        (λ b. find-emptied key k value (clear owned set rest) gone ∙ elim (Bool-cases (key == k)) [
          | inr e ↦ rw e known
          | inl e ↦ rw (e, subst (λ j. kept set j ≡ false) ((eq_iff key k).0 e) b) refl
        ])

  Distinct-emptied :
      (key : String) (value : Node) (rest : Fields)
      → has key rest ≡ false
      → Distinct rest
      → Distinct (emptied key value rest)
  unfolding emptied Distinct
  Distinct-emptied key (scalar s) rest h d = (h, d)
  Distinct-emptied key (mapping fields) rest h d = d
  Distinct-emptied key other rest h d = d

  Distinct-clear : (set old : Fields) → Distinct old → Distinct (clear owned set old)
  unfolding clear Distinct
  Distinct-clear set end d = tt
  Distinct-clear set (field key value rest) d =
      let fresh =
        ap is_some (find-clear set rest key d.1)
        ∙ ap is_some (blanked_if (kept set key) (find key rest) (has_no (find key rest) d.0)) in
      if_cases Distinct (kept set key) (λ _. (fresh, Distinct-clear set rest d.1))
        (λ _. Distinct-emptied key value (clear owned set rest) fresh (Distinct-clear set rest d.1))

  -- What mergeMapping leaves at a key: of an owned one, and of another, by the new value and the
  -- old one.
  unfoldable pub total : Bool → Option Node → Option Node → Option Node
  total own none old = if own then blanked old else old
  total own (some value) old = merged (some value) old

  total_of :
      (own : Bool) (new old : Option Node)
      → (if not own || is_some new then merged new old else blanked (merged new old))
        ≡ total own new old
  unfolding total merged blanked
  total_of true none old = refl
  total_of false none old = refl
  total_of true (some v) old = refl
  total_of false (some v) old = refl

  -- Each key has its new value, or the old one merged with it; a key that the settings dropped has
  -- the empty text for a scalar and is gone otherwise; and what they do not own is as it was.
  pub find-merge_mapping :
      (set old : Fields) (k : String)
      → Distinct set
      → Distinct old
      → find k (merge_mapping owned set old) ≡ total (is_one_of k owned) (find k set) (find k old)
  unfolding merge_mapping
  find-merge_mapping set old k d e =
      find-clear set (merge_fields owned set old) k (Distinct-merge_fields set old e)
      ∙ (ap (λ o. if kept set k then o else blanked o) (find-merge_fields set old k d e)
          ∙ total_of (is_one_of k owned) (find k set) (find k old))

  pub merge_mapping-Distinct :
      (set old : Fields) → Distinct old → Distinct (merge_mapping owned set old)
  unfolding merge_mapping
  merge_mapping-Distinct set old e =
      Distinct-clear set (merge_fields owned set old) (Distinct-merge_fields set old e)

-- The entries of the settings.
abbrev pub flat : Option (Option Node) → Option Node
flat none = none
flat (some o) = o

unfoldable pub distinct_keys : List (String × Option Node) → Bool
distinct_keys [] = true
distinct_keys (entry ∷ entries) =
    let rest = distinct_keys entries in not (is_some (lookup entry.0 entries)) && rest

pub find-present :
    (entries : List (String × Option Node)) (k : String)
    → distinct_keys entries ≡ true
    → find k (present entries) ≡ flat (lookup k entries)
unfolding find present distinct_keys lookup
find-present [] k d = refl
find-present ((key, none) ∷ entries) k d =
    find-present entries k (ground arith) ∙ elim (Bool-cases (key == k)) [
      | inr e ↦ rw e refl
      | inl e ↦
          rw
            (
              e,
              has_no (lookup k entries) (
                  subst (λ j. is_some (lookup j entries) ≡ false) ((eq_iff key k).0 e)
                    (ground arith)),
            )
            refl
    ]
find-present ((key, some value) ∷ entries) k d = elim (Bool-cases (key == k)) [
  | inl e ↦ rw e refl
  | inr e ↦ rw e (find-present entries k (ground arith))
]

pub present-Distinct :
    (entries : List (String × Option Node))
    → distinct_keys entries ≡ true
    → Distinct (present entries)
unfolding present distinct_keys Distinct
present-Distinct [] d = tt
present-Distinct ((key, none) ∷ entries) d = present-Distinct entries (ground arith)
present-Distinct ((key, some value) ∷ entries) d = (
  ap is_some (
      find-present entries key (ground arith)
      ∙ ap flat (has_no (lookup key entries) (ground arith))),
  present-Distinct entries (ground arith),
)
