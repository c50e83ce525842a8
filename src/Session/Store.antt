-- ===== src/Session/Store.antt =====
-- server/sessions.go: the store and the regions of code that run under one lock. A *session is an
-- address in `heap`, a browser a handle. `closes` counts the calls of Close on the browser of a
-- session, `locked` says that the mutex of a session is held across a Resolve.
use flaresolverr_go.Prelude.{
  ℕ, suc, String, Bool, true, false, Option, none, some, List, [], ◌∷◌, ◌==◌, if◌then◌else◌,
  is_some, eqb, update, Error, failure, wrap, Result, ok, err,
}
use flaresolverr_go.Prelude.Assoc.{lookup, insert, erase}
use flaresolverr_go.Config.{Config, with_defaults}

pub record Session : Type 0 where
  pub id : String
  pub created_at : ℕ
  pub ready : Bool
  pub browser : Option ℕ
  pub error : Option Error
  pub locked : Bool
  pub closed : Bool

pub record Store : Type 0 where
  pub cfg : Config
  pub sessions : List (String × ℕ)
  pub heap : ℕ → Session
  pub next : ℕ
  pub closes : ℕ → ℕ

abbrev pub session_closed : Error
session_closed = failure "The session doesn't exist."

abbrev pub reserved_session : String → ℕ → Session
reserved_session id now = record {
  id = id;
  created_at = now;
  ready = false;
  browser = none;
  error = none;
  locked = false;
  closed = false;
}

abbrev pub new_session_store : Config → Store
new_session_store cfg = record {
  cfg = cfg;
  sessions = [];
  heap = λ _. reserved_session "" 0;
  next = 0;
  closes = λ _. 0;
}

-- create, under the store's lock: the map entry is reserved for a new session.
unfoldable pub reserve : String → ℕ → Store → Store
reserve id now m = record m {
  sessions = insert id m.next m.sessions;
  heap = update m.heap m.next (reserved_session id now);
  next = suc m.next;
}

abbrev pub remove : String → Store → Store
remove id m = record m { sessions = erase id m.sessions }

-- create, outside the lock: what factory.New gave is stored, and `ready` is closed.
abbrev built : Session → Result ℕ → Session
built s (ok b) = record s { browser = some b; ready = true }
built s (err e) = record s {
  browser = none;
  error = some (wrap "create browser session: " e);
  ready = true;
}

unfoldable pub finish_build : ℕ → Result ℕ → Store → Store
finish_build r made m = record m { heap = update m.heap r (built (m.heap r) made) }

-- create, after a failed build: the entry goes if it still is this session.
abbrev is_entry : Option ℕ → ℕ → Bool
is_entry none r = false
is_entry (some q) r = eqb q r

unfoldable pub discard : String → ℕ → Store → Store
discard id r m = if is_entry (lookup id m.sessions) r then remove id m else m

-- close, once the session is ready and its mutex is free.
unfoldable pub close_session : ℕ → Store → Store
close_session r m = if (m.heap r).closed then m else record m {
  heap = update m.heap r (record (m.heap r) { closed = true });
  closes = update m.closes r (if is_some (m.heap r).browser then suc (m.closes r) else m.closes r);
}

unfoldable pub set_locked : ℕ → Bool → Store → Store
set_locked r held m = record m { heap = update m.heap r (record (m.heap r) { locked = held }) }

-- destroyAll, under the store's lock.
abbrev pub entries : List (String × ℕ) → List ℕ
entries [] = []
entries ((k, r) ∷ m) = r ∷ entries m

abbrev pub drop_all : Store → Store
drop_all m = record m { sessions = [] }

-- applyConfig
unfoldable pub apply_config : Config → Store → Store
apply_config cfg m = record m { cfg = cfg }

-- The configuration of a browser that create launches.
unfoldable pub launch_config : Option String → Config → Config
launch_config none cfg = with_defaults cfg
launch_config (some agent) cfg =
    let c = with_defaults cfg in
    if c.startup_user_agent == "" then record c { startup_user_agent = agent } else c
