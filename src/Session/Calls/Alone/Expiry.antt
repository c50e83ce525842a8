-- ===== src/Session/Calls/Alone/Expiry.antt =====
-- What get and destroyAll do to the sessions that clients see, when they run alone.
use flaresolverr_go.Prelude.{
  ℕ, ◌-◌, ◌≡◌, refl, ◌∙◌, ◌⊎◌, inl, inr, String, Bool, true, false, ◌||◌, any, Option, none, some,
  List, [], ◌∷◌, ◌==◌, eqb, arith, if◌then◌else◌, Result, ok, err, Bool-cases,
}
use flaresolverr_go.Prelude.Assoc.{lookup}
use flaresolverr_go.Prelude.Int.{ℤ, pos, leb_ℤ}
use flaresolverr_go.Config.{Config}
use flaresolverr_go.Session.Store.{
  new_session_store, Store, new_session_store, close_session, entries, drop_all,
}
use flaresolverr_go.Session.Kept.{lookup-any}
use flaresolverr_go.Session.Calls.{keep_or_renew, get, close_all, destroy_all, Factory}
use flaresolverr_go.Session.Calls.Alone.{IsValid, view, IsCreation, create-IsCreation, view-close}

-- A session that get may hand out: new, or not older than the time to live, if one is given.
abbrev pub IsTimely : ℤ → ℕ → Result (ℕ × Bool) × Store → Type 0
IsTimely ttl now (err e, m) = Unit
IsTimely ttl now (ok (r, fresh), m) =
    (fresh ≡ true)
    ⊎ ((leb_ℤ ttl (pos 0) ≡ true) ⊎ (leb_ℤ (pos (now - (m.heap r).created_at)) ttl ≡ true))

new-IsTimely :
    (m : Store) (id : String) (ttl : ℤ) (now : ℕ) (o : Result (ℕ × Bool) × Store)
    → IsCreation m id true o
    → IsTimely ttl now o
new-IsTimely m id ttl now (ok (r, fresh), m') c = inl c.1
new-IsTimely m id ttl now (err e, m') c = tt

renewed-IsTimely :
    (factory : Factory) (agent : Option String) (random session_id : String) (ttl : ℤ) (now : ℕ)
    (r : ℕ) (fresh : Bool) (m : Store)
    → IsValid m
    → IsTimely ttl now (keep_or_renew factory agent random session_id ttl now (ok (r, fresh), m))
unfolding keep_or_renew
renewed-IsTimely factory agent random session_id ttl now r fresh m v =
    elim (Bool-cases
      (leb_ℤ ttl (pos 0) || (fresh || leb_ℤ (pos (now - (m.heap r).created_at)) ttl))) [
        | inl h ↦ rw h (ground arith)
        | inr h ↦ rw h (
            new-IsTimely m _ ttl now _
              (create-IsCreation factory agent m random session_id none true now v))
      ]

-- get, run alone on a store whose entries are open sessions, never hands out a session that has
-- outlived a positive time to live.
pub get-IsTimely :
    (factory : Factory) (agent : Option String) (m : Store) (random session_id : String) (ttl : ℤ)
    (now : ℕ)
    → IsValid m
    → IsTimely ttl now (get factory agent random session_id ttl now m)
unfolding get
get-IsTimely factory agent m random session_id ttl now v =
    go _ (create-IsCreation factory agent m random session_id none false now v)
  where
    go :
        (o : Result (ℕ × Bool) × Store)
        → IsCreation m (if session_id == "" then random else session_id) false o
        → IsTimely ttl now (keep_or_renew factory agent random session_id ttl now o)
    go (err e, m') c = tt
    go (ok (r, fresh), m') c =
        renewed-IsTimely factory agent random session_id ttl now r fresh m' c.0

view-close_all : (rs : List ℕ) (m : Store) (k : String) → view (close_all rs m) k ≡ view m k
unfolding close_all
view-close_all [] m k = refl
view-close_all (r ∷ rs) m k = view-close_all rs (close_session r m) k ∙ view-close m r k

closed-close :
    (m : Store) (q r : ℕ)
    → ((m.heap r).closed || eqb q r) ≡ true
    → ((close_session q m).heap r).closed ≡ true
unfolding close_session
closed-close m q r h = ground arith

closed-close_all :
    (rs : List ℕ) (m : Store) (r : ℕ)
    → ((m.heap r).closed || any (λ q. eqb q r) rs) ≡ true
    → ((close_all rs m).heap r).closed ≡ true
unfolding close_all
closed-close_all [] m r h = ground arith
closed-close_all (q ∷ rs) m r h =
    closed-close_all rs (close_session q m) r (ground (arith, closed-close m q r))

-- destroyAll, run alone, empties the store, and closes every session that was in it.
pub destroy_all_lem :
    (m : Store) (k : String) (r : ℕ)
    → view m k ≡ some r
    → (view (destroy_all m) k ≡ none) × (((destroy_all m).heap r).closed ≡ true)
unfolding destroy_all lookup
destroy_all_lem m k r e = (
  view-close_all (entries m.sessions) (drop_all m) k ∙ refl,
  closed-close_all (entries m.sessions) (drop_all m) r (ground (arith, lookup-any k r m.sessions)),
)

-- What a creation leaves is valid.
pub creation-IsValid :
    (m : Store) (id : String) (force : Bool) (o : Result (ℕ × Bool) × Store)
    → IsCreation m id force o
    → IsValid o.1
creation-IsValid m id force (ok (r, fresh), m') c = c.0
creation-IsValid m id force (err e, m') c = c.0

pub get-IsValid :
    (factory : Factory) (agent : Option String) (m : Store) (random session_id : String) (ttl : ℤ)
    (now : ℕ)
    → IsValid m
    → IsValid (get factory agent random session_id ttl now m).1
unfolding get
get-IsValid factory agent m random session_id ttl now v =
    go _ (create-IsCreation factory agent m random session_id none false now v)
  where
    go :
        (o : Result (ℕ × Bool) × Store)
        → IsCreation m (if session_id == "" then random else session_id) false o
        → IsValid (keep_or_renew factory agent random session_id ttl now o).1
    go (err e, m') c = c.0
    go (ok (r, fresh), m') c =
        unfold keep_or_renew in
        elim (Bool-cases
          (leb_ℤ ttl (pos 0) || (fresh || leb_ℤ (pos (now - (m'.heap r).created_at)) ttl))) [
            | inl h ↦ rw h c.0
            | inr h ↦ rw h (
                creation-IsValid m' _ true _
                  (create-IsCreation factory agent m' random session_id none true now c.0))
          ]

pub view-destroy_all : (m : Store) (k : String) → view (destroy_all m) k ≡ none
unfolding destroy_all lookup
view-destroy_all m k = view-close_all (entries m.sessions) (drop_all m) k

pub destroy_all-IsValid : (m : Store) → IsValid (destroy_all m)
destroy_all-IsValid m = record {
  usable = λ k q h. ground (arith, view-destroy_all m k);
  made = λ k q h. ground (arith, view-destroy_all m k);
}

pub new_session_store-IsValid : (cfg : Config) → IsValid (new_session_store cfg)
unfolding lookup
new_session_store-IsValid cfg = record {
  usable = λ k r h. absurd (ground arith);
  made = λ k r h. absurd (ground arith);
}
