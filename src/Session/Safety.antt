-- ===== src/Session/Safety.antt =====
-- What every interleaving of the goroutines guarantees.
use flaresolverr_go.Prelude.{
  ℕ, ◌<◌, ◌≡◌, ◌⊎◌, inl, inr, true, false, ◌&&◌, none, some, is_some, arith, if◌then◌else◌,
}
use flaresolverr_go.Prelude.Assoc.{lookup}
use flaresolverr_go.Config.{Config}
use flaresolverr_go.Session.Store.{Store}
use flaresolverr_go.Session.Steps.{resolving, System, Reach, is_at_rest}
use flaresolverr_go.Session.Moves.{sound_at}
use flaresolverr_go.Session.Kept.{Fine, owes-is_at_rest}
use flaresolverr_go.Session.Invariant.{Reach-Inv}

sound-resolving :
    (m : Store) (r : ℕ)
    → sound_at m r ≡ true
    → (m.heap r).ready ≡ true
    → (m.heap r).error ≡ none
    → (m.heap r).locked ≡ true
    → (is_some (m.heap r).browser ≡ true) × ((m.heap r).closed ≡ false)
sound-resolving m r s h e l = ground arith

-- While a goroutine resolves on a session, the browser of that session exists and the session is
-- not closed: Close never runs during a Resolve, and no Resolve begins on a closed browser.
pub resolving_browser_is_open :
    (cfg : Config) (s : System)
    → Reach cfg s
    → (i r : ℕ) → s.pc i ≡ resolving r
    → (is_some (s.store.heap r).browser ≡ true) × ((s.store.heap r).closed ≡ false)
resolving_browser_is_open cfg s reach i r e =
    let v = Reach-Inv reach in
    sound-resolving s.store r (v.sound r) (v.settled i r (rw e)) (v.usable i r (rw e))
      (v.holder i r (rw e))

-- No two goroutines resolve on one session at a time.
pub resolving_is_exclusive :
    (cfg : Config) (s : System)
    → Reach cfg s
    → (i j r : ℕ) → s.pc i ≡ resolving r
    → s.pc j ≡ resolving r
    → i ≡ j
resolving_is_exclusive cfg s reach i j r e f = (Reach-Inv reach).one_holder i j r (rw e) (rw f)

-- In every reachable state Close has been called on the browser of a session once if the session
-- has a browser and is closed, and not at all otherwise.
pub closes_once :
    (cfg : Config) (s : System)
    → Reach cfg s
    → (r : ℕ)
    → s.store.closes r
      ≡ (if (s.store.heap r).closed && is_some (s.store.heap r).browser then 1 else 0)
closes_once cfg s reach r = let h = (Reach-Inv reach).sound r in ground arith

orphan_cases :
    (m : Store) (r b : ℕ)
    → Fine m r
    → sound_at m r ≡ true
    → (m.heap r).browser ≡ some b
    → (m.closes r ≡ 1) ⊎ (lookup (m.heap r).id m.sessions ≡ some r)
orphan_cases m r b f s e = ground arith

-- Nothing leaks: in a reachable state in which every goroutine has returned, a browser that was
-- launched has been closed once, or its session is in the store under its name.
pub no_orphans :
    (cfg : Config) (s : System)
    → Reach cfg s
    → ((i : ℕ) → is_at_rest (s.pc i) ≡ true)
    → (r b : ℕ) → r < s.store.next
    → (s.store.heap r).browser ≡ some b
    → (s.store.closes r ≡ 1) ⊎ (lookup (s.store.heap r).id s.store.sessions ≡ some r)
no_orphans cfg s reach quiet r b lt e = elim ((Reach-Inv reach).kept r lt) [
  | inl f ↦ orphan_cases s.store r b f ((Reach-Inv reach).sound r) e
  | inr (i, o) ↦ cc (o, owes-is_at_rest r (s.pc i) (quiet i))
]
