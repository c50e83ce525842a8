-- ===== src/Session/Calls/Alone.antt =====
-- What each method does to the sessions that clients see, when it runs alone.
pub mod Expiry
use flaresolverr_go.Prelude.{
  ℕ, suc, ◌+◌, ◌-◌, ◌<◌, ◌≤◌, ◌≡◌, refl, sym, ap, ◌∙◌, ◌⊎◌, inl, inr, ◌≢◌, String, Bool, true,
  false, not, ◌&&◌, ◌||◌, any, Option, none, some, List, [], ◌∷◌, ◌==◌, is_some, is_none, eqb,
  arith, if◌then◌else◌, Result, ok, err, Error, eq_iff, wrap, Bool-cases, Option-cases,
}
use flaresolverr_go.Prelude.Assoc.{lookup, insert, erase, lookup-insert, lookup-erase}
use flaresolverr_go.Prelude.Int.{ℤ, pos, leb_ℤ}
use flaresolverr_go.Config.{Config, Proxy}
use flaresolverr_go.Session.Store.{
  Session, Store, session_closed, reserve, remove, finish_build, discard, close_session, entries,
  drop_all, launch_config,
}
use flaresolverr_go.Session.Kept.{lookup-any}
use flaresolverr_go.Session.Calls.{
  keep_or_renew, get, close_all, destroy_all, Factory, close_existing, wait_for, finish_create,
  create_new, find_or_create, create_at, create, destroy, destroy_entry,
}

-- A session that a client can use.
pub record IsOpen (s : Session) (id : String) : Type 0 where
  pub named : s.id ≡ id
  pub ready : s.ready ≡ true
  pub fine : s.error ≡ none
  pub launched : is_some s.browser ≡ true
  pub not_closed : s.closed ≡ false

-- Between calls every entry of the store is an open session under its name.
pub record IsValid (m : Store) : Type 0 where
  pub usable : (k : String) (r : ℕ) → lookup k m.sessions ≡ some r → IsOpen (m.heap r) k
  pub made : (k : String) (r : ℕ) → lookup k m.sessions ≡ some r → r < m.next

-- The abstract store: the session of each name.
abbrev pub view : Store → String → Option ℕ
view m k = lookup k m.sessions

pub view-close : (m : Store) (r : ℕ) (k : String) → view (close_session r m) k ≡ view m k
unfolding close_session
view-close m r k = ground arith

drop-IsValid :
    (m : Store) (id : String) (r : ℕ)
    → IsValid m
    → view m id ≡ some r
    → IsValid (close_session r (remove id m))
unfolding close_session
drop-IsValid m id r v e = record {
  usable = λ k q h.
      ground (arith, lookup-erase id k m.sessions, eq_iff id k, v.usable k q, v.usable id r e);
  made = λ k q h. ground (arith, lookup-erase id k m.sessions, v.made k q);
}

close_existing-IsValid :
    (m : Store) (id : String) (o : Option ℕ)
    → IsValid m
    → view m id ≡ o
    → IsValid (close_existing id o m)
unfolding close_existing
close_existing-IsValid m id none v e = v
close_existing-IsValid m id (some r) v e = drop-IsValid m id r v e

view-close_existing :
    (m : Store) (id : String) (o : Option ℕ) (k : String)
    → view m id ≡ o
    → view (close_existing id o m) k ≡ (if id == k then none else view m k)
unfolding close_existing
view-close_existing m id none k e = ground (arith, eq_iff id k)
view-close_existing m id (some r) k e = view-close (remove id m) r k ∙ lookup-erase id k m.sessions

-- destroy, run alone on a store whose entries are open sessions: every entry is one again, the
-- session of the name is gone, the others stay, and the answer says whether there was one.
pub destroy_lem :
    (m : Store) (id : String)
    → IsValid m
    → IsValid (destroy id m).1
      × ((destroy id m).0 ≡ is_some (view m id))
      × ((k : String) → view (destroy id m).1 k ≡ (if id == k then none else view m k))
unfolding destroy
destroy_lem m id v = go (view m id) refl
  where
    go :
        (o : Option ℕ)
        → view m id ≡ o
        → IsValid (destroy_entry id o m).1
          × ((destroy_entry id o m).0 ≡ is_some o)
          × ((k : String) → view (destroy_entry id o m).1 k ≡ (if id == k then none else view m k))
    go none e = (v, refl, λ k. ground (arith, eq_iff id k))
    go (some r) e = (
      drop-IsValid m id r v e,
      refl,
      λ k. view-close (remove id m) r k ∙ lookup-erase id k m.sessions,
    )

-- What a creation that is not forced leaves: the session of the name, new unless there was one; or
-- an error, which leaves no session of the name.
abbrev pub IsCreation : Store → String → Bool → Result (ℕ × Bool) × Store → Type 0
IsCreation m id force (ok (r, fresh), m') =
    IsValid m'
    × (fresh ≡ (force || is_none (view m id)))
    × ((k : String) → view m' k ≡ (if id == k then some r else view m k))
IsCreation m id force (err e, m') =
    IsValid m'
    × ((force || is_none (view m id)) ≡ true)
    × ((k : String) → view m' k ≡ (if id == k then none else view m k))

built-IsValid :
    (m : Store) (id : String) (now b : ℕ)
    → IsValid m
    → view m id ≡ none
    → IsValid (finish_build m.next (ok b) (reserve id now m))
unfolding reserve finish_build
built-IsValid m id now b v e = record {
  usable = λ k q h.
      ground (arith, lookup-insert id k m.next m.sessions, eq_iff id k, v.usable k q, v.made k q);
  made = λ k q h. ground (arith, lookup-insert id k m.next m.sessions, v.made k q);
}

view-built :
    (m : Store) (id : String) (now : ℕ) (made : Result ℕ) (k : String)
    → view (finish_build m.next made (reserve id now m)) k
      ≡ (if id == k then some m.next else view m k)
unfolding reserve finish_build
view-built m id now made k = lookup-insert id k m.next m.sessions

error-built :
    (m : Store) (id : String) (now b : ℕ)
    → ((finish_build m.next (ok b) (reserve id now m)).heap m.next).error ≡ none
unfolding reserve finish_build
error-built m id now b = ground arith

error-failed :
    (m : Store) (id : String) (now : ℕ) (e : Error)
    → ((finish_build m.next (err e) (reserve id now m)).heap m.next).error
      ≡ some (wrap "create browser session: " e)
unfolding reserve finish_build
error-failed m id now e = ground arith

view-discarded :
    (m : Store) (id : String) (now : ℕ) (e : Error) (k : String)
    → view m id ≡ none
    → view (discard id m.next (finish_build m.next (err e) (reserve id now m))) k
      ≡ (if id == k then none else view m k)
unfolding reserve finish_build discard
view-discarded m id now e k h = ground (
  arith,
  lookup-insert id id m.next m.sessions,
  lookup-insert id k m.next m.sessions,
  lookup-erase id k (insert id m.next m.sessions),
  eq_iff id k,
  eq_iff id id,
)

IsValid-frame :
    (m m' : Store)
    → IsValid m
    → ((k : String) (q : ℕ) → view m' k ≡ some q → view m k ≡ some q)
    → ((q : ℕ) → q < m.next → m'.heap q ≡ m.heap q)
    → m.next ≤ m'.next
    → IsValid m'
IsValid-frame m m' v same heap next = record {
  usable = λ k q h. let h' = same k q h in rw (heap q (v.made k q h')) (v.usable k q h');
  made = λ k q h. omega (arith, v.made k q (same k q h));
}

abbrev discarded : Store → String → ℕ → Error → Store
discarded m id now e = discard id m.next (finish_build m.next (err e) (reserve id now m))

discarded-IsValid :
    (m : Store) (id : String) (now : ℕ) (e : Error)
    → IsValid m
    → view m id ≡ none
    → IsValid (discarded m id now e)
discarded-IsValid m id now e v h = IsValid-frame m (discarded m id now e) v same heap next
  where
    same : (k : String) (q : ℕ) → view (discarded m id now e) k ≡ some q → view m k ≡ some q
    same k q eq = ground (arith, view-discarded m id now e k h)

    heap : (q : ℕ) → q < m.next → (discarded m id now e).heap q ≡ m.heap q
    heap q lt = unfold reserve finish_build discard in ground arith

    next : m.next ≤ (discarded m id now e).next
    next = unfold reserve finish_build discard in ground arith

create_new-IsCreation :
    (factory : Factory) (agent : Option String) (m : Store) (id : String) (proxy : Option Proxy)
    (now : ℕ)
    → IsValid m
    → view m id ≡ none
    → IsCreation m id false (create_new factory agent id proxy now m)
unfolding create_new finish_create
create_new-IsCreation factory agent m id proxy now v h =
    go (factory (launch_config agent m.cfg) proxy)
  where
    go :
        (made : Result ℕ)
        → let m' = finish_build m.next made (reserve id now m) in
          IsCreation m id false (finish_create id m.next (m'.heap m.next).error m')
    go (ok b) =
        rw (error-built m id now b, finish_create)
          (rw (view-built m id now (ok b) id, (eq_iff id id).1 refl)
            (built-IsValid m id now b v h, rw h, λ k. view-built m id now (ok b) k))
    go (err e) =
        rw (error-failed m id now e, finish_create)
          (discarded-IsValid m id now e v h, rw h, λ k. view-discarded m id now _ k h)

create_at-IsCreation :
    (factory : Factory) (agent : Option String) (m : Store) (id : String) (proxy : Option Proxy)
    (now : ℕ)
    → IsValid m
    → IsCreation m id false (create_at factory agent id proxy now m)
unfolding create_at wait_for
create_at-IsCreation factory agent m id proxy now v = elim (Option-cases (view m id)) [
  | inl e ↦ rw (e, find_or_create) (create_new-IsCreation factory agent m id proxy now v e)
  | inr (r, e) ↦
      rw (e, find_or_create, (v.usable id r e).fine) (v, rw e, λ k. ground (arith, eq_iff id k))
]

-- After a forced creation, relative to the store before it.
forced :
    (m m' : Store) (id : String) (o : Result (ℕ × Bool) × Store)
    → ((k : String) → view m' k ≡ (if id == k then none else view m k))
    → IsCreation m' id false o
    → IsCreation m id true o
forced m m' id (ok (r, fresh), m'') h (v, f, w) =
    (v, ground (arith, h id, eq_iff id id), λ k. ground (arith, h k, w k, eq_iff id k))
forced m m' id (err e, m'') h (v, f, w) = (v, refl, λ k. ground (arith, h k, w k, eq_iff id k))

-- create, run alone on a store whose entries are open sessions: every entry is an open session
-- again. It returns the session of the name, which is reported as new exactly when there was none
-- or a new one was forced, or an error, which it only does in those cases and which leaves no
-- session of the name. The sessions of the other names stay.
pub create-IsCreation :
    (factory : Factory) (agent : Option String) (m : Store) (random session_id : String)
    (proxy : Option Proxy) (force : Bool) (now : ℕ)
    → IsValid m
    → IsCreation m
        (if session_id == "" then random else session_id)
        force
        (create factory agent random session_id proxy force now m)
unfolding create
create-IsCreation factory agent m random session_id proxy true now v =
    let id = if session_id == "" then random else session_id in
    let m' = close_existing id (view m id) m in
    forced m m' id _ (λ k. view-close_existing m id (view m id) k refl)
      (create_at-IsCreation factory agent m' id proxy now
        (close_existing-IsValid m id (view m id) v refl))
create-IsCreation factory agent m random session_id proxy false now v =
    create_at-IsCreation factory agent m _ proxy now v
