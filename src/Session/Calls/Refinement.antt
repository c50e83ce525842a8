-- ===== src/Session/Calls/Refinement.antt =====
-- server/sessions.go: what the store promises its clients, for calls one after the other, and that
-- its methods keep the promise.
use flaresolverr_go.Prelude.{
  ℕ, ◌-◌, String, Bool, true, false, not, ◌||◌, any, Option, none, List, [], ◌∷◌, map, ◌==◌,
  is_some, ◌≡◌, refl, ap, ◌∙◌, subst, arith, if◌then◌else◌, if_cases, ◌&&◌, Result, ok, err,
}
use mathlib.Core.Path.{fun_ext}
use flaresolverr_go.Prelude.Assoc.{lookup}
use flaresolverr_go.Prelude.Int.{ℤ, pos, leb_ℤ}
use flaresolverr_go.Config.{Proxy}
use flaresolverr_go.Session.Store.{Store}
use flaresolverr_go.Session.Calls.{
  Factory, create, get, keep_or_renew, destroy, destroy_all, ids, sort, insert_sorted,
}
use flaresolverr_go.Session.Calls.Alone.{IsValid, view, IsCreation, create-IsCreation, destroy_lem}
use flaresolverr_go.Session.Calls.Alone.Expiry.{view-destroy_all, destroy_all-IsValid}

-- A call of a client. The name that is drawn for an empty one and the time are arguments.
pub data Command : Type 0 where
  create_command : String → String → Option Proxy → Bool → ℕ → Command
  get_command : String → String → ℤ → ℕ → Command
  destroy_command : String → Command
  drop_command : Command
  list_command : Command

pub data Reply : Type 0 where
  -- A session, and whether it is new.
  given : Bool → Reply
  failed : Reply
  destroyed : Bool → Reply
  listed : List String → Reply

-- The promise: the store is the set of the names that have a session.
abbrev pub Names : Type 0
Names = String → Bool

abbrev pub with_name : Names → String → Bool → Names
with_name A id b = λ k. if id == k then b else A k

abbrev pub named : String → String → String
named random id = if id == "" then random else id

-- Which replies a command may have.
pub Permits : Names → Command → Reply → Type 0
Permits A (create_command random id proxy force now) (given fresh) =
    fresh ≡ (force || not (A (named random id)))
Permits A (create_command random id proxy force now) failed =
    (force || not (A (named random id))) ≡ true
Permits A (get_command random id ttl now) (given fresh) = (fresh || A (named random id)) ≡ true
Permits A (get_command random id ttl now) failed =
    (leb_ℤ ttl (pos 0) && A (named random id)) ≡ false
Permits A (destroy_command id) (destroyed b) = b ≡ A id
Permits A list_command (listed ks) = (k : String) → any (λ s. s == k) ks ≡ A k
Permits A drop_command (destroyed b) = b ≡ true
Permits A c r = ⊥

-- The names after a command that had this reply.
pub next : Names → Command → Reply → Names
next A (create_command random id proxy force now) (given fresh) = with_name A (named random id) true
next A (create_command random id proxy force now) r = with_name A (named random id) false
next A (get_command random id ttl now) (given fresh) = with_name A (named random id) true
next A (get_command random id ttl now) r = with_name A (named random id) false
next A (destroy_command id) r = with_name A id false
next A drop_command r = λ k. false
next A list_command r = A

pub Follows : Names → List Command → List Reply → Type 0
Follows A [] [] = Unit
Follows A (c ∷ cs) (r ∷ rs) = Permits A c r × Follows (next A c r) cs rs
Follows A cs rs = ⊥

abbrev pub names : Store → Names
names m = λ k. is_some (view m k)

abbrev reply_of : Result (ℕ × Bool) → Reply
reply_of (ok (r, fresh)) = given fresh
reply_of (err e) = failed

module _ (factory : Factory) (agent : Option String) where
  -- The methods of the store.
  unfoldable pub serve : Command → Store → Reply × Store
  serve (create_command random id proxy force now) m =
      let o = create factory agent random id proxy force now m in (reply_of o.0, o.1)
  serve (get_command random id ttl now) m =
      let o = get factory agent random id ttl now m in (reply_of o.0, o.1)
  serve (destroy_command id) m = (destroyed (destroy id m).0, (destroy id m).1)
  serve drop_command m = (destroyed true, destroy_all m)
  serve list_command m = (listed (ids m), m)

-- A command, with the factory and the user agent that the store has by then.
abbrev pub Call : Type 0
Call = (Factory × Option String) × Command

unfoldable pub replies : List Call → Store → List Reply
unfolding serve
replies [] m = []
replies (((factory, agent), c) ∷ cs) m = let o = serve factory agent c m in o.0 ∷ replies cs o.1

-- One command, and what is left.
record Served (m : Store) (c : Command) (o : Reply × Store) : Type 0 where
  pub permitted : Permits (names m) c o.0
  pub after : (k : String) → names o.1 k ≡ next (names m) c o.0 k
  pub valid : IsValid o.1

created-Served :
    (m : Store) (random id : String) (proxy : Option Proxy) (force : Bool) (now : ℕ)
    (o : Result (ℕ × Bool) × Store)
    → IsCreation m (named random id) force o
    → Served m (create_command random id proxy force now) (reply_of o.0, o.1)
unfolding Permits next
created-Served m random id proxy force now (ok (r, fresh), m') (v, f, w) = record {
  permitted = ground (arith, f);
  after = λ k. ground (arith, w k);
  valid = v;
}
created-Served m random id proxy force now (err e, m') (v, f, w) = record {
  permitted = ground (arith, f);
  after = λ k. ground (arith, w k);
  valid = v;
}

destroyed-Served :
    (m : Store) (id : String)
    → IsValid m
    → Served m (destroy_command id) (destroyed (destroy id m).0, (destroy id m).1)
unfolding Permits next
destroyed-Served m id v =
    let (v', b, w) = destroy_lem m id v in
    record { permitted = b; after = λ k. ground (arith, w k); valid = v' }

cleared-Served : (m : Store) → Served m drop_command (destroyed true, destroy_all m)
unfolding Permits next
cleared-Served m = record {
  permitted = refl;
  after = λ k. ap is_some (view-destroy_all m k);
  valid = destroy_all-IsValid m;
}

abbrev among : String → List String → Bool
among k ss = any (λ s. s == k) ss

among-insert : (k s : String) (ss : List String) → among k (insert_sorted s ss) ≡ among k (s ∷ ss)
unfolding insert_sorted
among-insert k s [] = refl
among-insert k s (t ∷ ts) = ground (arith, among-insert k s ts)

among-sort : (k : String) (ss : List String) → among k (sort ss) ≡ among k ss
unfolding sort
among-sort k [] = refl
among-sort k (s ∷ ss) = among-insert k s (sort ss) ∙ ap (λ b. (s == k) || b) (among-sort k ss)

among-lookup :
    (k : String) (es : List (String × ℕ)) → among k (map (λ e. e.0) es) ≡ is_some (lookup k es)
unfolding lookup
among-lookup k [] = refl
among-lookup k (e ∷ es) = ground (arith, among-lookup k es)

listed-Served : (m : Store) → IsValid m → Served m list_command (listed (ids m), m)
unfolding Permits next ids
listed-Served m v = record {
  permitted = λ k. among-sort k (map (λ e. e.0) m.sessions) ∙ among-lookup k m.sessions;
  after = λ k. refl;
  valid = v;
}

module _ (factory : Factory) (agent : Option String) where
  abbrev got : String → String → ℤ → ℕ → Result (ℕ × Bool) × Store → Reply × Store
  got random id ttl now o =
      let x = keep_or_renew factory agent random id ttl now o in (reply_of x.0, x.1)

  renewed-Served :
      (m m' : Store) (random id : String) (ttl : ℤ) (now : ℕ) (o : Result (ℕ × Bool) × Store)
      → leb_ℤ ttl (pos 0) ≡ false
      → ((k : String) → (named random id == k) ≡ false → view m' k ≡ view m k)
      → IsCreation m' (named random id) true o
      → Served m (get_command random id ttl now) (reply_of o.0, o.1)
  unfolding Permits next
  renewed-Served m m' random id ttl now (ok (r, fresh), m'') t w (v, f, u) = record {
    permitted = ground (arith, f);
    after = λ k. ground (arith, w k, u k);
    valid = v;
  }
  renewed-Served m m' random id ttl now (err e, m'') t w (v, f, u) = record {
    permitted = ground (arith, t);
    after = λ k. ground (arith, w k, u k);
    valid = v;
  }

  got-Served :
      (m : Store) (random id : String) (ttl : ℤ) (now : ℕ) (o : Result (ℕ × Bool) × Store)
      → IsCreation m (named random id) false o
      → Served m (get_command random id ttl now) (got random id ttl now o)
  unfolding keep_or_renew Permits next
  got-Served m random id ttl now (err e, m') (v, f, w) = record {
    permitted = ground (arith, f);
    after = λ k. ground (arith, w k);
    valid = v;
  }
  got-Served m random id ttl now (ok (r, fresh), m') (v, f, w) =
      if_cases
        (λ (x : Result (ℕ × Bool) × Store).
          Served m (get_command random id ttl now) (reply_of x.0, x.1))
        (leb_ℤ ttl (pos 0) || (fresh || leb_ℤ (pos (now - (m'.heap r).created_at)) ttl))
        (λ _. record { permitted = ground (arith, f); after = λ k. ground (arith, w k); valid = v })
        (λ b.
          renewed-Served m m' random id ttl now (create factory agent random id none true now m')
            (ground arith) (λ k n. ground (arith, w k))
            (create-IsCreation factory agent m' random id none true now v))

  serve-Served : (c : Command) (m : Store) → IsValid m → Served m c (serve factory agent c m)
  unfolding serve get
  serve-Served (create_command random id proxy force now) m v =
      created-Served m random id proxy force now (create factory agent random id proxy force now m)
        (create-IsCreation factory agent m random id proxy force now v)
  serve-Served (get_command random id ttl now) m v =
      got-Served m random id ttl now (create factory agent random id none false now m)
        (create-IsCreation factory agent m random id none false now v)
  serve-Served (destroy_command id) m v = destroyed-Served m id v
  serve-Served drop_command m v = cleared-Served m
  serve-Served list_command m v = listed-Served m v

-- The session store, for any sequence of calls one after the other, where each call has its own
-- outcome of a launch, refines a set of names: what the calls answer is what Permits allows for the
-- set that the calls before have left. So create says that a session is new exactly when its name
-- was free or it was forced, it fails only then, a name is taken after a success and free after a
-- failure, destroy says whether there was a session, and ids lists the names of the set.
pub store_refines :
    (cs : List Call) (m : Store) → IsValid m → Follows (names m) (map (λ x. x.1) cs) (replies cs m)
unfolding replies Follows
store_refines [] m v = tt
store_refines (((factory, agent), c) ∷ cs) m v =
    let o = serve factory agent c m in
    let h = serve-Served factory agent c m v in
    (
      h.permitted,
      subst (λ A. Follows A (map (λ x. x.1) cs) (replies cs o.1)) (fun_ext h.after)
          (store_refines cs o.1 h.valid),
    )
