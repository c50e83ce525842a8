-- ===== src/Challenge/Targets.antt =====
-- server/browser/common.go: the controls of a page, and which of them a challenge is clicked on.
pub mod TabStops
use flaresolverr_go.Prelude.{
  ℕ, zero, suc, ◌-◌, ◌*◌, Option, none, some, String, Bool, true, false, not, ◌&&◌, ◌||◌, List, [],
  ◌∷◌, ◌++◌, ◌==◌, ◌<>◌, is_one_of, contains, any, to_lower, join, length, ltb, leb, if◌then◌else◌,
}
use flaresolverr_go.Prelude.Int.{ℤ, pos, negsuc, leb_ℤ}

-- float64: the code compares sizes and computes the points to click.
pub record Floats : Type 1 where
  pub Float : Type 0
  pub hundredths : ℕ → Float
  pub less : Float → Float → Bool
  pub at_most : Float → Float → Bool
  pub plus : Float → Float → Float
  pub minus : Float → Float → Float
  pub times : Float → Float → Float
  pub half : Float → Float
  pub least : Float → Float → Float
  pub greatest : Float → Float → Float
  -- %.1f
  pub one_decimal : Float → String

pub record ClickTarget (Float : Type 0) : Type 0 where
  pub kind : String
  pub tag : String
  pub type : String
  pub text : String
  pub id : String
  pub name : String
  pub title : String
  pub aria_label : String
  pub role : String
  pub class_name : String
  pub tab_index : ℤ
  pub disabled : Bool
  pub src : String
  pub left : Float
  pub top : Float
  pub width : Float
  pub height : Float
  pub visible : Bool

pub record Point (Float : Type 0) : Type 0 where
  pub x : Float
  pub y : Float

abbrev pub challenge_needles : List String
challenge_needles = "cloudflare" ∷ "challenge" ∷ "turnstile" ∷ "cf-chl" ∷ "captcha" ∷ "widget" ∷ []

-- The elements that pass, in their order.
pub filter {ℓ} : {A : Type ℓ} → (A → Bool) → List A → List A
filter test [] = []
filter test (x ∷ xs) = if test x then x ∷ filter test xs else filter test xs

module _ (F : Floats) where
  open F use {
    Float, hundredths, less, at_most, plus, minus, times, half, least, greatest, one_decimal,
  }

  abbrev pub Target : Type 0
  Target = ClickTarget Float

  abbrev whole : ℕ → Float
  whole n = hundredths (n * 100)

  -- low <= size && size <= high
  within : ℕ → ℕ → Float → Bool
  within low high size = at_most (whole low) size && at_most size (whole high)

  unfoldable pub is_verify_button_target : Target → Bool
  is_verify_button_target t =
      let haystack = to_lower (join (t.text ∷ t.aria_label ∷ t.title ∷ t.name ∷ t.id ∷ []) " ") in
      t.visible
      && (contains haystack "verify you are human"
          || (contains haystack "verify" && contains haystack "human"))

  unfoldable pub is_challenge_iframe_target : Target → Bool
  unfolding within
  is_challenge_iframe_target t =
      let haystack = to_lower (join (t.src ∷ t.title ∷ t.name ∷ t.id ∷ t.aria_label ∷ []) " ") in
      ((t.kind == "iframe") && t.visible)
      && (any (λ needle. contains haystack needle) challenge_needles
          || (within 240 420 t.width && within 40 120 t.height))

  unfoldable pub relevant_challenge_targets : List Target → List Target
  unfolding filter is_verify_button_target is_challenge_iframe_target
  relevant_challenge_targets =
      filter (λ t. is_verify_button_target t || is_challenge_iframe_target t)

  is_fallback : Target → Bool
  unfolding within
  is_fallback t =
      (t.visible && not (t.id == "__flaresolverr-focus"))
      && (if t.kind == "iframe"
          then within 20 900 t.width && within 20 400 t.height
          else is_one_of t.kind ("button" ∷ "input" ∷ "role_button" ∷ [])
            && (within 40 500 t.width && within 20 180 t.height))

  unfoldable pub fallback_challenge_targets : List Target → List Target
  unfolding filter is_fallback
  fallback_challenge_targets = filter is_fallback

  -- What TabbableTargets appends for one target: twice, where it is a button by its tag and by its
  -- role.
  by_tag : Target → List Target
  by_tag t =
      if is_one_of t.tag ("iframe" ∷ "button" ∷ "input" ∷ "textarea" ∷ "select" ∷ [])
      then t ∷ []
      else if (t.tag == "a") && (t.src == "")
      then t ∷ []
      else []

  tab_stops : Target → List Target
  unfolding by_tag
  tab_stops t =
      if not t.visible || t.disabled || (t.id == "__flaresolverr-focus")
      then []
      else if at_most t.width (whole 0) || at_most t.height (whole 0)
      then []
      else if leb_ℤ (pos 0) t.tab_index
      then t ∷ []
      else by_tag t ++ (if t.role == "button" then t ∷ [] else [])

  all_tab_stops : List Target → List Target
  unfolding tab_stops
  all_tab_stops [] = []
  all_tab_stops (t ∷ ts) = tab_stops t ++ all_tab_stops ts

  unfoldable pub target_key : Target → String
  target_key t =
      join
        (t.kind
          ∷ t.tag
          ∷ t.id
          ∷ t.name
          ∷ one_decimal t.left
          ∷ one_decimal t.top
          ∷ one_decimal t.width
          ∷ one_decimal t.height
          ∷ [])
        "|"

  -- The loop of dedupeTargets: `seen` has the keys of the targets so far.
  unique : List String → List Target → List Target
  unfolding target_key
  unique seen [] = []
  unique seen (t ∷ ts) =
      if is_one_of (target_key t) seen then unique seen ts else t ∷ unique (target_key t ∷ seen) ts

  unfoldable pub dedupe_targets : List Target → List Target
  unfolding unique
  dedupe_targets ts = if ltb (length ts) 2 then ts else unique [] ts

  unfoldable pub tabbable_targets : List Target → List Target
  unfolding all_tab_stops dedupe_targets
  tabbable_targets ts = dedupe_targets (all_tab_stops ts)

  -- In milliseconds.
  unfoldable pub challenge_auto_wait_duration : List Target → ℕ
  challenge_auto_wait_duration [] = 1500
  challenge_auto_wait_duration (t ∷ ts) = 1000

  abbrev at : Float → Float → Point Float
  at x y = record { x = x; y = y }

  center : Target → Point Float
  center t = at (plus t.left (half t.width)) (plus t.top (half t.height))

  unfoldable pub click_points_for_target : Target → List (Point Float)
  unfolding center
  click_points_for_target t =
      if not (t.kind == "iframe")
      then center t
        ∷ at (plus (center t).x (least (times t.width (hundredths 5)) (whole 8)))
            (plus (center t).y (least (times t.height (hundredths 5)) (whole 6)))
        ∷ []
      else at (plus t.left (least (greatest (times t.width (hundredths 20)) (whole 18)) (whole 42)))
          (plus t.top (half t.height))
        ∷ center t
        ∷ at
            (plus t.left (
              least (greatest (times t.width (hundredths 33)) (whole 28))
                (greatest (minus t.width (whole 10)) (whole 10))))
            (plus t.top (
              least (greatest (times t.height (hundredths 50)) (whole 18))
                (greatest (minus t.height (whole 6)) (whole 6))))
        ∷ []

-- index := max(tabs, 1) - 1, cut down to the last of n targets
unfoldable pub tab_position : ℤ → ℕ → ℕ
tab_position (pos zero) n = 0
tab_position (pos (suc i)) n = if leb n i then n - 1 else i
tab_position (negsuc i) n = 0

-- list[i], where there is one.
unfoldable pub nth {ℓ} : {A : Type ℓ} → ℕ → List A → Option A
nth i [] = none
nth zero (x ∷ xs) = some x
nth (suc i) (x ∷ xs) = nth i xs

-- tabbables[index]
unfoldable pub chosen_tab_stop {ℓ} : {A : Type ℓ} → ℤ → List A → Option A
unfolding tab_position nth
chosen_tab_stop tabs stops = nth (tab_position tabs (length stops)) stops
