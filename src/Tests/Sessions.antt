-- ===== src/Tests/Sessions.antt =====
-- Goroutines that share a session store, and the methods of the store.
use flaresolverr_go.Prelude.{
  map, ℕ, String, Bool, true, false, Option, none, some, List, [], ◌∷◌, ◌≡◌, ◌⊎◌, inl, inr, refl,
  is_some, Result, ok, err, arith, ◌&&◌, if◌then◌else◌, failure, ◌==◌,
}
use flaresolverr_go.Prelude.Int.{pos}
use flaresolverr_go.Prelude.Assoc.{lookup, insert, erase}
use flaresolverr_go.Config.{Config, default_config_values}
use flaresolverr_go.Session.Store.{
  Store, new_session_store, reserve, finish_build, close_session, set_locked,
}
use flaresolverr_go.Session.Steps.{
  Pc, Input, creates, destroys, resolves, proceeds, System, Reach, start, later, pick, after,
  advance, init, created, is_at_rest,
}
use flaresolverr_go.Session.Safety.{
  resolving_browser_is_open, resolving_is_exclusive, closes_once, no_orphans,
}
use flaresolverr_go.Session.Calls.{Factory, create, get}
use flaresolverr_go.Session.Calls.Alone.{IsValid, IsCreation, create-IsCreation}
use flaresolverr_go.Session.Calls.Refinement.{
  Call, create_command, get_command, destroy_command, list_command, Follows, names, replies,
  store_refines,
}
use flaresolverr_go.Session.Calls.Alone.Expiry.{IsTimely, get-IsTimely, new_session_store-IsValid}

abbrev cfg : Config
cfg = default_config_values

-- The state that a schedule reaches. A goroutine that cannot take its step ends the schedule.
abbrev Ran : Type 0
Ran = (s : System) × Reach cfg s

run_from : (s : System) → Reach cfg s → List (ℕ × Input) → Ran
run_from s r [] = (s, r)
run_from s r ((i, input) ∷ schedule) =
    go (advance input s.store (s.pc i)) refl (λ t q. run_from t q schedule)
  where
    go :
        (o : Option (Store × Pc))
        → advance input s.store (s.pc i) ≡ o
        → ((t : System) → Reach cfg t → Ran)
        → Ran
    go none e k = (s, r)
    go (some (m, p)) e k = k (after s i m p) (later r (pick i input m p e))

abbrev run : List (ℕ × Input) → Ran
run schedule = run_from (init cfg) start schedule

-- Goroutine 0 creates the session "x" and resolves on it; 1 asks to destroy it meanwhile.
abbrev busy : List (ℕ × Input)
busy =
    (0, creates "x" false 10)
    ∷ (0, proceeds (ok 7))
    ∷ (0, proceeds (ok 7))
    ∷ (0, resolves)
    ∷ (1, destroys "x")
    ∷ []

resolving_browser_is_open_example :
    (is_some ((run busy).0.store.heap 0).browser ≡ true)
    × (((run busy).0.store.heap 0).closed ≡ false)
unfolding run_from advance reserve lookup flaresolverr_go.Prelude.ℕ_discrete finish_build insert
    erase
resolving_browser_is_open_example = resolving_browser_is_open cfg (run busy).0 (run busy).1 0 0 refl

abbrev first : ℕ
first = 0

resolving_is_exclusive_example : first ≡ first
unfolding run_from advance reserve lookup flaresolverr_go.Prelude.ℕ_discrete finish_build insert
    erase
resolving_is_exclusive_example =
    resolving_is_exclusive cfg (run busy).0 (run busy).1 first first 0 refl refl

-- 1 destroys the session that 0 still builds, and 2 creates its successor before 0 looks again: 0
-- gets its session as a new one, though it is closed.
abbrev replaced : List (ℕ × Input)
replaced =
    (0, creates "x" false 10)
    ∷ (1, destroys "x")
    ∷ (2, creates "x" false 11)
    ∷ (0, proceeds (ok 7))
    ∷ (1, proceeds (ok 7))
    ∷ (0, proceeds (ok 7))
    ∷ []

replaced_is_dead :
    ((run replaced).0.pc 0 ≡ created 0 true) × (((run replaced).0.store.heap 0).closed ≡ true)
unfolding run_from advance reserve lookup flaresolverr_go.Prelude.ℕ_discrete finish_build insert
    erase close_session
replaced_is_dead = (refl, refl)

closes_once_example : (run replaced).0.store.closes 0 ≡ (
    if ((run replaced).0.store.heap 0).closed && is_some ((run replaced).0.store.heap 0).browser
    then 1
    else 0)
closes_once_example = closes_once cfg (run replaced).0 (run replaced).1 0

-- Once 0 has finished, 1 closes the browser.
abbrev quiet : List (ℕ × Input)
quiet =
    (0, creates "x" false 10)
    ∷ (0, proceeds (ok 7))
    ∷ (0, proceeds (ok 7))
    ∷ (0, resolves)
    ∷ (1, destroys "x")
    ∷ (0, proceeds (ok 7))
    ∷ (1, proceeds (ok 7))
    ∷ []

quiet_at_rest : (i : ℕ) → is_at_rest ((run quiet).0.pc i) ≡ true
unfolding run_from advance reserve lookup flaresolverr_go.Prelude.ℕ_discrete finish_build insert
    erase close_session set_locked
quiet_at_rest i = ground arith

no_orphans_example :
    ((run quiet).0.store.closes 0 ≡ 1)
    ⊎ (lookup ((run quiet).0.store.heap 0).id (run quiet).0.store.sessions ≡ some 0)
unfolding run_from advance reserve lookup flaresolverr_go.Prelude.ℕ_discrete finish_build insert
    erase close_session set_locked
no_orphans_example =
    no_orphans cfg (run quiet).0 (run quiet).1 quiet_at_rest 0 7 (ground arith) refl

-- A factory that launches browser 7.
abbrev factory : Factory
factory given proxy = ok 7

abbrev one_session : Store
one_session = (create factory none "random" "x" none false 10 (new_session_store cfg)).1

one_session-IsValid : IsValid one_session
unfolding create lookup finish_build flaresolverr_go.Prelude.ℕ_discrete reserve insert
one_session-IsValid =
    (create-IsCreation factory none (new_session_store cfg) "random" "x" none false 10
      (new_session_store-IsValid cfg)).0

create-IsCreation_example :
    IsCreation one_session "y" true (create factory none "random" "y" none true 20 one_session)
create-IsCreation_example =
    create-IsCreation factory none one_session "random" "y" none true 20 one_session-IsValid

-- A session is created, renewed, listed and destroyed twice.
-- One launch is refused in between.
abbrev failing : Factory
failing = λ c proxy. err (failure "no browser")

abbrev calls : List Call
calls =
    ((factory, none), create_command "random" "x" none false 10)
    ∷ ((failing, none), get_command "random" "x" (pos 5) 20)
    ∷ ((factory, none), create_command "random" "" none false 21)
    ∷ ((factory, none), list_command)
    ∷ ((factory, none), destroy_command "x")
    ∷ ((factory, none), destroy_command "x")
    ∷ []

store_refines_example :
    Follows
      (names (new_session_store cfg))
      (map (λ x. x.1) calls)
      (replies calls (new_session_store cfg))
store_refines_example = store_refines calls (new_session_store cfg) (new_session_store-IsValid cfg)

-- The session "x" of time 10 has outlived 5 at time 20.
get-IsTimely_example : IsTimely (pos 5) 20 (get factory none "random" "x" (pos 5) 20 one_session)
get-IsTimely_example =
    get-IsTimely factory none one_session "random" "x" (pos 5) 20 one_session-IsValid
