-- ===== src/Session/Steps.antt =====
-- server/sessions.go as goroutines that interleave. A goroutine stands between two regions of code
-- that run under one lock; the counter says where, and what is left to do. Locking, waiting for
-- `ready` and for the mutex of a session are steps that are not enabled.
use flaresolverr_go.Prelude.{
  ℕ, String, Bool, true, false, Option, none, some, List, [], ◌∷◌, ◌≡◌, ◌&&◌, not, if◌then◌else◌,
  is_some, update, Error, Result,
}
use flaresolverr_go.Prelude.Assoc.{lookup}
use flaresolverr_go.Config.{Config}
use flaresolverr_go.Session.Store.{
  Store, Session, session_closed, new_session_store, reserve, remove, finish_build, discard,
  close_session, set_locked, entries, drop_all,
}

pub data Pc : Type 0 where
  idle : Pc
  -- create: the session that a forced creation replaces is to be closed
  replacing : String → ℕ → ℕ → Pc
  -- create: existing.wait()
  waiting : ℕ → Pc
  -- create: factory.New runs
  building : String → ℕ → Pc
  -- create: the browser is built, and the store is not yet asked again
  publishing : String → ℕ → Pc
  -- create: the session was dropped from the store meanwhile, and is to be closed
  abandoning : ℕ → Pc
  created : ℕ → Bool → Pc
  failed : Error → Pc
  -- destroy: the entry is gone, and the session is to be closed
  destroying : ℕ → Pc
  destroyed : Bool → Pc
  -- destroyAll: the entries are gone, and these sessions are to be closed
  draining : List ℕ → Pc
  -- resolveChallenge: client.Resolve runs under the mutex of the session
  resolving : ℕ → Pc
  resolved : Pc

-- A goroutine that has returned may make another call.
abbrev pub is_at_rest : Pc → Bool
is_at_rest idle = true
is_at_rest (created _ _) = true
is_at_rest (failed _) = true
is_at_rest (destroyed _) = true
is_at_rest resolved = true
is_at_rest _ = false

-- What a goroutine is given: a call with its arguments, the lock of the session that its creation
-- returned, or its next step, with the result of factory.New if that runs.
pub data Input : Type 0 where
  creates : (id : String) (force : Bool) (now : ℕ) → Input
  destroys : (id : String) → Input
  drains : Input
  resolves : Input
  proceeds : (made : Result ℕ) → Input

-- create, under the store's lock: the second look at the map.
unfoldable pub look_up_or_reserve : String → ℕ → Store → Option ℕ → Store × Pc
look_up_or_reserve id now m (some r) = (m, waiting r)
look_up_or_reserve id now m none = (reserve id now m, building id m.next)

-- create, under the store's lock: the first region, which a forced creation leaves to close what
-- it found.
unfoldable pub begin_create : String → ℕ → Store → Bool → Option ℕ → Store × Pc
unfolding look_up_or_reserve
begin_create id now m true (some r) = (remove id m, replacing id now r)
begin_create id now m true none = look_up_or_reserve id now m none
begin_create id now m false found = look_up_or_reserve id now m found

unfoldable pub begin_destroy : String → Store → Option ℕ → Store × Pc
begin_destroy id m none = (m, destroyed false)
begin_destroy id m (some r) = (remove id m, destroying r)

-- <-s.ready; s.mu.Lock()
abbrev pub can_close : Session → Bool
can_close s = s.ready && not s.locked

abbrev pub waited : ℕ → Option Error → Pc
waited r none = created r false
waited r (some e) = failed e

abbrev pub published : String → ℕ → Store → Option Error → Store × Pc
published id r m (some e) = (discard id r m, failed e)
published id r m none = (m, if is_some (lookup id m.sessions) then created r true else abandoning r)

abbrev pub drained : List ℕ → Pc
drained [] = destroyed true
drained (r ∷ rs) = draining (r ∷ rs)

unfoldable pub call : Input → Store → Option (Store × Pc)
unfolding begin_create begin_destroy
call (creates id force now) m = some (begin_create id now m force (lookup id m.sessions))
call (destroys id) m = some (begin_destroy id m (lookup id m.sessions))
call drains m = some (drop_all m, drained (entries m.sessions))
call resolves m = none
call (proceeds made) m = none

-- resolveChallenge: item.mu.Lock(), and the test of item.closed.
unfoldable pub begin_resolve : ℕ → Store → Option (Store × Pc)
begin_resolve r m =
    if (m.heap r).locked
    then none
    else if (m.heap r).closed
    then some (m, failed session_closed)
    else some (set_locked r true m, resolving r)

unfoldable pub advance : Input → Store → Pc → Option (Store × Pc)
unfolding call begin_resolve look_up_or_reserve
advance (proceeds made) m (replacing id now r) =
    if can_close (m.heap r)
    then some
        (look_up_or_reserve id now (close_session r m) (lookup id (close_session r m).sessions))
    else none
advance (proceeds made) m (waiting r) =
    if (m.heap r).ready then some (m, waited r (m.heap r).error) else none
advance (proceeds made) m (building id r) = some (finish_build r made m, publishing id r)
advance (proceeds made) m (publishing id r) = some (published id r m (m.heap r).error)
advance (proceeds made) m (abandoning r) =
    if can_close (m.heap r) then some (close_session r m, failed session_closed) else none
advance (proceeds made) m (destroying r) =
    if can_close (m.heap r) then some (close_session r m, destroyed true) else none
advance (proceeds made) m (draining []) = some (m, destroyed true)
advance (proceeds made) m (draining (r ∷ rs)) =
    if can_close (m.heap r) then some (close_session r m, drained rs) else none
advance (proceeds made) m (resolving r) = some (set_locked r false m, resolved)
advance resolves m (created r fresh) = begin_resolve r m
advance input m p = if is_at_rest p then call input m else none

pub record System : Type 0 where
  pub store : Store
  pub pc : ℕ → Pc

abbrev pub after : System → ℕ → Store → Pc → System
after s i m p = record { store = m; pc = update s.pc i p }

pub data Step (s : System) : System → Type 0 where
  pick :
      (i : ℕ) (input : Input) (m : Store) (p : Pc)
      → advance input s.store (s.pc i) ≡ some (m, p)
      → Step s (after s i m p)

abbrev pub init : Config → System
init cfg = record { store = new_session_store cfg; pc = λ _. idle }

pub data Reach (cfg : Config) : System → Type 0 where
  start : Reach cfg (init cfg)
  later : {s t : System} → Reach cfg s → Step s t → Reach cfg t
