-- ===== src/Service/Upkeep.antt =====
-- What every command of /v1 in server/service.go keeps of the state of the service.
use flaresolverr_go.Prelude.{
  ℕ, String, Bool, true, false, Option, none, some, ◌==◌, ◌≡◌, refl, inl, inr, Bool-cases,
  Option-cases, Error, failure, Result, ok, err, if◌then◌else◌, arith, is_some,
}
use flaresolverr_go.Config.{Config, prepare_config}
use flaresolverr_go.Session.Store.{Store, apply_config as store_config}
use flaresolverr_go.Session.Calls.{destroy}
use flaresolverr_go.Session.Calls.Alone.{IsValid, create-IsCreation, destroy_lem, view}
use flaresolverr_go.Session.Calls.Alone.Expiry.{
  creation-IsValid, destroy_all-IsValid, view-destroy_all,
}
use flaresolverr_go.Service.Types.{Request, Service, World, Method, Solution, proxy_or}
use flaresolverr_go.Service.Resolve.{resolve_challenge}
use flaresolverr_go.Service.Resolve.Upkeep.{
  Keeps, Keeps-refl, Keeps-trans, Keeps-store, IsTidy, store_user_agent_from_browser-Keeps,
  resolve_challenge-Keeps,
}
use flaresolverr_go.Service.Commands.{at_command}
use flaresolverr_go.Service.{
  after_create, cmd_sessions_create, after_destroy, cmd_sessions_destroy, after_resolve, checked,
  cmd_request, handle_v1, request_error, apply_config,
}

after_create-Keeps :
    (w : World) (s : Service) (o : Result (ℕ × Bool) × Store)
    → (IsValid s.store → IsValid o.1)
    → Keeps s (after_create w s o).1
unfolding after_create
after_create-Keeps w s (err e, m) h = Keeps-store s m h
after_create-Keeps w s (ok (r, false), m) h = Keeps-store s m h
after_create-Keeps w s (ok (r, true), m) h =
    Keeps-trans s (record s { store = m }) _ (Keeps-store s m h)
      (store_user_agent_from_browser-Keeps w (m.heap r).browser (record s { store = m }))

create-Keeps : (w : World) (req : Request) (s : Service) → Keeps s (cmd_sessions_create w req s).1
unfolding cmd_sessions_create
create-Keeps w req s = after_create-Keeps w s _ (λ v. creation-IsValid s.store _ false _ (
    create-IsCreation w.factory (some s.user_agent) s.store w.random req.session
      (proxy_or req.proxy s.cfg.default_proxy) false w.now v))

after_destroy-Keeps :
    (s : Service) (o : Bool × Store)
    → (IsValid s.store → IsValid o.1)
    → Keeps s (after_destroy s o).1
unfolding after_destroy
after_destroy-Keeps s (false, m) h = Keeps-store s m h
after_destroy-Keeps s (true, m) h = Keeps-store s m h

destroy-Keeps : (req : Request) (s : Service) → Keeps s (cmd_sessions_destroy req s).1
unfolding cmd_sessions_destroy
destroy-Keeps req s =
    after_destroy-Keeps s (destroy req.session s.store) (λ v. (destroy_lem s.store req.session v).0)

after_resolve-Keeps :
    (s : Service) (o : Result (Option Solution × String) × Service)
    → Keeps s o.1
    → Keeps s (after_resolve o).1
unfolding after_resolve
after_resolve-Keeps s (err e, s') k = k
after_resolve-Keeps s (ok (solution, message), s') k = k

cmd_request-Keeps :
    (w : World) (req : Request) (method : Method) (s : Service)
    → Keeps s (cmd_request w req method s).1
unfolding cmd_request checked
cmd_request-Keeps w req method s = go (request_error w req method)
  where
    go : (o : Option Error) → Keeps s (checked w req method s o).1
    go (some e) = Keeps-refl s
    go none =
        after_resolve-Keeps s (resolve_challenge w req method s)
          (resolve_challenge-Keeps w req method s)

-- Every request to /v1, whatever its outcome, leaves a tidy state tidy: every entry of the session
-- store is an open session under its name, every browser launched for one request is closed again,
-- and the user agent is trimmed. A user agent that is known stays as it is, and so does the
-- configuration.
pub handle_v1-Keeps :
    (w : World) (req : Option Request) (s : Service) → Keeps s (handle_v1 w req s).1
handle_v1-Keeps w req s =
    at_command (λ o. Keeps s o.1) w s (λ e. Keeps-refl s) (λ req. create-Keeps w req s)
      (Keeps-refl s) (λ req. destroy-Keeps req s) (λ req method. cmd_request-Keeps w req method s)
      req

-- Applying a configuration leaves no session in the store and no known user agent, and the
-- service has the prepared configuration; a tidy state stays tidy.
pub apply_config-IsTidy :
    (given : Config) (s : Service)
    → IsTidy s
    → IsTidy (apply_config given s)
      × ((k : String) → view (apply_config given s).store k ≡ none)
      × ((apply_config given s).user_agent ≡ "")
      × ((apply_config given s).cfg ≡ prepare_config given)
unfolding apply_config flaresolverr_go.Prelude.trim
apply_config-IsTidy given s t = (
  record {
    valid = destroy_all-IsValid (store_config (prepare_config given) s.store);
    balanced = t.balanced;
    trimmed = refl;
  },
  view-destroy_all (store_config (prepare_config given) s.store),
  refl,
  refl,
)
