-- ===== src/Service/Resolve/Upkeep.antt =====
-- What a resolution in server/service.go keeps of the state of the service.
use flaresolverr_go.Prelude.{
  ℕ, String, Bool, false, Option, none, some, ◌∷◌, ◌==◌, ◌≡◌, ◌∙◌, refl, inl, inr, trim, Bool-cases,
  Result, ok, err, arith,
}
use flaresolverr_go.Prelude.Text.Trim.Laws.{trim_idem}
use flaresolverr_go.Config.{Proxy}
use flaresolverr_go.Session.Store.{Store}
use flaresolverr_go.Session.Calls.Alone.{IsValid}
use flaresolverr_go.Session.Calls.Alone.Expiry.{get-IsValid}
use flaresolverr_go.Service.Types.{Request, Service, World, Method, Solution, Resolution}
use flaresolverr_go.Service.Resolve.{
  store_user_agent, learned, store_user_agent_from_browser, browser_request, remember, finish,
  on_browser, in_session, closing, ephemeral, minutes_ns, resolve_challenge,
}

-- The store is valid, every browser that was launched for one request is closed again, and the
-- user agent has no space around it.
pub record IsTidy (s : Service) : Type 0 where
  pub valid : IsValid s.store
  pub balanced : s.opened ≡ s.closed
  pub trimmed : trim s.user_agent ≡ s.user_agent

-- A step from s to s' that keeps the configuration, the state tidy, and a user agent that is known.
pub record Keeps (s s' : Service) : Type 0 where
  pub cfg : s'.cfg ≡ s.cfg
  pub tidy : IsTidy s → IsTidy s'
  pub agent : (s.user_agent == "") ≡ false → s'.user_agent ≡ s.user_agent

pub Keeps-refl : (s : Service) → Keeps s s
Keeps-refl s = record { cfg = refl; tidy = λ t. t; agent = λ _. refl }

pub Keeps-trans : (s s' s'' : Service) → Keeps s s' → Keeps s' s'' → Keeps s s''
Keeps-trans s s' s'' k l = record {
  cfg = l.cfg ∙ k.cfg;
  tidy = λ t. l.tidy (k.tidy t);
  agent = λ h. ground (arith, k.agent h, l.agent);
}

pub Keeps-store :
    (s : Service) (m : Store) → (IsValid s.store → IsValid m) → Keeps s (record s { store = m })
Keeps-store s m h = record {
  cfg = refl;
  tidy = λ t. record { valid = h t.valid; balanced = t.balanced; trimmed = t.trimmed };
  agent = λ _. refl;
}

store_user_agent-Keeps : (value : String) (s : Service) → Keeps s (store_user_agent value s)
unfolding store_user_agent
store_user_agent-Keeps value s = elim (Bool-cases (trim value == "")) [
  | inl e ↦ rw e (Keeps-refl s)
  | inr e ↦ rw e (elim (Bool-cases (s.user_agent == "")) [
    | inl e' ↦ rw e' (record {
      cfg = refl;
      tidy = λ t. record { valid = t.valid; balanced = t.balanced; trimmed = trim_idem value };
      agent = λ h. ground arith;
    })
    | inr e' ↦ rw e' (Keeps-refl s)
  ])
]

pub store_user_agent_from_browser-Keeps :
    (w : World) (b : Option ℕ) (s : Service) → Keeps s (store_user_agent_from_browser w b s)
unfolding store_user_agent_from_browser
store_user_agent_from_browser-Keeps w none s = Keeps-refl s
store_user_agent_from_browser-Keeps w (some b) s = elim (Bool-cases (s.user_agent == "")) [
  | inl e ↦ rw e (go (w.agent_of b))
  | inr e ↦ rw e (Keeps-refl s)
]
  where
    go : (o : Result String) → Keeps s (learned o s)
    go (ok agent) = store_user_agent-Keeps agent s
    go (err e) = Keeps-refl s

finish-Keeps :
    (w : World) (req : Request) (s : Service) (o : Result Resolution) → Keeps s (finish w req s o).1
unfolding finish
finish-Keeps w req s (err e) = Keeps-refl s
finish-Keeps w req s (ok res) = go res.result
  where
    go : (o : Option Solution) → Keeps s (remember o s)
    go none = Keeps-refl s
    go (some solution) = store_user_agent-Keeps solution.user_agent s

on_browser-Keeps :
    (w : World) (req : Request) (method : Method) (s : Service) (b : Option ℕ)
    → Keeps s (on_browser w req method s b).1
unfolding on_browser
on_browser-Keeps w req method s none = Keeps-refl s
on_browser-Keeps w req method s (some b) =
    finish-Keeps w req s (w.resolve b (browser_request s.cfg req method))

in_session-Keeps :
    (w : World) (req : Request) (method : Method) (s : Service) (o : Result (ℕ × Bool) × Store)
    → (IsValid s.store → IsValid o.1)
    → Keeps s (in_session w req method s o).1
unfolding in_session
in_session-Keeps w req method s (err e, m) h = Keeps-store s m h
in_session-Keeps w req method s (ok (r, fresh), m) h = elim (Bool-cases (m.heap r).closed) [
  | inl e ↦ rw e (Keeps-store s m h)
  | inr e ↦ rw e (
      Keeps-trans s (record s { store = m }) _ (Keeps-store s m h)
        (on_browser-Keeps w req method (record s { store = m }) (m.heap r).browser))
]

-- What finish leaves of the two lists of browsers.
same_lists :
    (w : World) (req : Request) (s : Service) (o : Result Resolution)
    → ((finish w req s o).1.opened ≡ s.opened)
      × ((finish w req s o).1.closed ≡ s.closed)
      × ((finish w req s o).1.store ≡ s.store)
unfolding finish
same_lists w req s (err e) = (refl, refl, refl)
same_lists w req s (ok res) = go res.result
  where
    go :
        (o : Option Solution)
        → ((remember o s).opened ≡ s.opened)
          × ((remember o s).closed ≡ s.closed)
          × ((remember o s).store ≡ s.store)
    go none = (refl, refl, refl)
    go (some solution) = unfold store_user_agent in ground arith

trimmed_after :
    (w : World) (req : Request) (s : Service) (o : Result Resolution)
    → trim s.user_agent ≡ s.user_agent
    → trim (finish w req s o).1.user_agent ≡ (finish w req s o).1.user_agent
unfolding finish
trimmed_after w req s (err e) h = h
trimmed_after w req s (ok res) h = go res.result
  where
    go : (o : Option Solution) → trim (remember o s).user_agent ≡ (remember o s).user_agent
    go none = h
    go (some solution) = unfold store_user_agent in ground (arith, h, trim_idem solution.user_agent)

ephemeral-Keeps :
    (w : World) (req : Request) (method : Method) (s : Service) (o : Result ℕ)
    → Keeps s (ephemeral w req method s o).1
unfolding ephemeral closing
ephemeral-Keeps w req method s (err e) = Keeps-refl s
ephemeral-Keeps w req method s (ok b) =
    let s' = record s { opened = b ∷ s.opened } in
    let o = w.resolve b (browser_request s.cfg req method) in
    let (h1, h2, h3) = same_lists w req s' o in
    record {
      cfg = (finish-Keeps w req s' o).cfg;
      tidy = λ t. record {
        valid = rw h3 t.valid;
        balanced = rw (h1, h2, t.balanced) refl;
        trimmed = ground (arith, t.trimmed, trimmed_after w req s' o);
      };
      agent = λ h. (finish-Keeps w req s' o).agent h;
    }

pub resolve_challenge-Keeps :
    (w : World) (req : Request) (method : Method) (s : Service)
    → Keeps s (resolve_challenge w req method s).1
unfolding resolve_challenge
resolve_challenge-Keeps w req method s = elim (Bool-cases (req.session == "")) [
  | inl e ↦ rw e (ephemeral-Keeps w req method s _)
  | inr e ↦ rw e (
      in_session-Keeps w req method s _ (
        get-IsValid w.factory (some s.user_agent) s.store w.random req.session
          (minutes_ns req.session_ttl_minutes) w.now))
]

-- A request.get or request.post that names a session gets the same answer from resolveChallenge,
-- and leaves the same state, whatever proxy it asks for.
pub session_proxy_is_ignored :
    (w : World) (req : Request) (method : Method) (s : Service) (asked : Option Proxy)
    → (req.session == "") ≡ false
    → resolve_challenge w (record req { proxy = asked }) method s ≡ resolve_challenge w req method s
unfolding resolve_challenge in_session browser_request
session_proxy_is_ignored w req method s asked h = rw h refl
