-- ===== src/Session/Calls.antt =====
-- server/sessions.go: each method run alone, from its first lock to its return. What factory.New
-- gives, the identifier that newSessionID draws and the time are arguments.
pub mod Alone
pub mod Refinement
use flaresolverr_go.Prelude.{
  ℕ, ◌-◌, String, Bool, true, false, ◌||◌, Option, none, some, List, [], ◌∷◌, map, ◌==◌,
  if◌then◌else◌, is_some, Error, Result, ok, err,
}
use Prim.Native.String
use Prim.Native.Nat.{Ordering}
use flaresolverr_go.Prelude.Int.{ℤ, pos, leb_ℤ}
use flaresolverr_go.Prelude.Assoc.{lookup}
use flaresolverr_go.Config.{Config, Proxy}
use flaresolverr_go.Session.Store.{
  Store, session_closed, reserve, remove, finish_build, discard, close_session, entries, drop_all,
  launch_config,
}

-- browserFactory
abbrev pub Factory : Type 0
Factory = Config → Option Proxy → Result ℕ

close_existing : String → Option ℕ → Store → Store
close_existing id none m = m
close_existing id (some r) m = close_session r (remove id m)

-- existing.wait()
wait_for : ℕ → Option Error → Store → Result (ℕ × Bool) × Store
wait_for r none m = (ok (r, false), m)
wait_for r (some e) m = (err e, m)

-- The end of create, after factory.New.
finish_create : String → ℕ → Option Error → Store → Result (ℕ × Bool) × Store
finish_create id r (some e) m = (err e, discard id r m)
finish_create id r none m =
    if is_some (lookup id m.sessions)
    then (ok (r, true), m)
    else (err session_closed, close_session r m)

module _ (factory : Factory) (agent : Option String) where
  create_new : String → Option Proxy → ℕ → Store → Result (ℕ × Bool) × Store
  unfolding finish_create
  create_new id proxy now m =
      let r = m.next in
      let made = factory (launch_config agent m.cfg) proxy in
      let m' = finish_build r made (reserve id now m) in finish_create id r (m'.heap r).error m'

  find_or_create : String → Option Proxy → ℕ → Option ℕ → Store → Result (ℕ × Bool) × Store
  unfolding wait_for create_new
  find_or_create id proxy now (some r) m = wait_for r (m.heap r).error m
  find_or_create id proxy now none m = create_new id proxy now m

  create_at : String → Option Proxy → ℕ → Store → Result (ℕ × Bool) × Store
  unfolding find_or_create
  create_at id proxy now m = find_or_create id proxy now (lookup id m.sessions) m

  unfoldable pub create :
      String → String → Option Proxy → Bool → ℕ → Store → Result (ℕ × Bool) × Store
  unfolding create_at close_existing
  create random session_id proxy force now m =
      let id = if session_id == "" then random else session_id in
      create_at id proxy now (if force then close_existing id (lookup id m.sessions) m else m)

  -- get, once its first create has returned.
  keep_or_renew : String → String → ℤ → ℕ → Result (ℕ × Bool) × Store → Result (ℕ × Bool) × Store
  unfolding create
  keep_or_renew random session_id ttl now (err e, m) = (err e, m)
  keep_or_renew random session_id ttl now (ok (r, fresh), m) =
      if leb_ℤ ttl (pos 0) || (fresh || leb_ℤ (pos (now - (m.heap r).created_at)) ttl)
      then (ok (r, fresh), m)
      else create random session_id none true now m

  unfoldable pub get : String → String → ℤ → ℕ → Store → Result (ℕ × Bool) × Store
  unfolding keep_or_renew
  get random session_id ttl now m =
      keep_or_renew random session_id ttl now (create random session_id none false now m)

destroy_entry : String → Option ℕ → Store → Bool × Store
destroy_entry id none m = (false, m)
destroy_entry id (some r) m = (true, close_session r (remove id m))

unfoldable pub destroy : String → Store → Bool × Store
unfolding destroy_entry
destroy id m = destroy_entry id (lookup id m.sessions) m

close_all : List ℕ → Store → Store
close_all [] m = m
close_all (r ∷ rs) m = close_all rs (close_session r m)

unfoldable pub destroy_all : Store → Store
unfolding close_all
destroy_all m = close_all (entries m.sessions) (drop_all m)

-- sort.Strings
before : String → String → Bool
before s t = elim (String.compare s t) [ Ordering.gt ↦ false | _ ↦ true ]

insert_sorted : String → List String → List String
unfolding before
insert_sorted s [] = s ∷ []
insert_sorted s (t ∷ ts) = if before s t then s ∷ t ∷ ts else t ∷ insert_sorted s ts

sort : List String → List String
unfolding insert_sorted
sort [] = []
sort (s ∷ ss) = insert_sorted s (sort ss)

unfoldable pub ids : Store → List String
unfolding sort
ids m = sort (map (λ e. e.0) m.sessions)
