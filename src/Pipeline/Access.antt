-- ===== src/Pipeline/Access.antt =====
-- server/browser/resolve.go: a page that bans the client is never answered.
use flaresolverr_go.Prelude.{String, Bool, false, List, [], ◌∷◌, any, has_prefix, ◌≡◌, Result, ok}
use flaresolverr_go.Prelude.Acts.Triples.{Leaves}
use flaresolverr_go.Service.Types.{BrowserRequest}
use flaresolverr_go.Pipeline.{
  title, selector_exists, Trace, Page, access_denied_titles, access_denied_selectors, load,
}

abbrev Anything : Trace → Type 0
Anything t = Unit

-- What holds whatever is left.
abbrev Fact : Type 0 → {A : Type 0} → Result A × Trace → Type 0
Fact X x = Leaves (λ _ _. X) Anything x

module _ (p : Page) where
  -- Each of these selectors was asked for, and was not on the page.
  pub Absent : List String → Trace → Type 0
  Absent [] t = Unit
  Absent (s ∷ ss) t = (p.selector_exists t s ≡ ok false) × Absent ss (selector_exists s ∷ t)

  -- The page that was loaded had no title and no selector of a ban.
  pub record IsAllowed (req : BrowserRequest) : Type 0 where
    pub loaded : Trace
    pub load_ok : load p req [] ≡ (ok tt, loaded)
    pub heading : String
    pub shown : p.title loaded ≡ ok heading
    pub not_denied : any (λ denied. has_prefix heading denied) access_denied_titles ≡ false
    pub absent : Absent access_denied_selectors (title ∷ loaded)

  abbrev is_denied : String → Bool
  is_denied heading = any (λ denied. has_prefix heading denied) access_denied_titles
