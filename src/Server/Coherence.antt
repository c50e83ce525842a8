-- ===== src/Server/Coherence.antt =====
-- server/server.go: the server, its service and its exporter have the same settings.
use flaresolverr_go.Prelude.{
  ℕ, String, Bool, true, false, Option, none, some, List, [], ◌∷◌, ◌==◌, ◌≡◌, ◌∙◌, refl, sym, subst,
  not, ap, inl, inr, Bool-cases, if◌then◌else◌, Error, Result, ok, err, arith,
}
use flaresolverr_go.Config.{Config, prepare_config}
use flaresolverr_go.Config.Yaml.{Document, tree, render_config_yaml}
use flaresolverr_go.Config.Save.{config_file_from_config}
use flaresolverr_go.Config.Defaults.{prepare_config_idem}
use flaresolverr_go.Settings.{Payload, to_config}
use flaresolverr_go.Session.Calls.Alone.Expiry.{new_session_store-IsValid}
use flaresolverr_go.Service.Types.{Request, Response, Service, World, new_service}
use flaresolverr_go.Service.{controller_v1}
use flaresolverr_go.Service.Resolve.Upkeep.{Keeps, IsTidy}
use flaresolverr_go.Service.Upkeep.{handle_v1-Keeps, apply_config-IsTidy}
use flaresolverr_go.Metrics.{Metrics, HttpServer, new_metrics, observe}
use flaresolverr_go.Metrics.Exporter.{
  IsTracked, IsServing, new_metrics-IsTracked, apply_config-IsServing, observe-IsTracked,
}
use flaresolverr_go.Server.{
  Server, Answer, HttpRequest, Outside, new_server, apply_config, applied, saved, accepted, decoded,
  guarded, handle_settings_api, observed, v1_decoded, handle_v1_post, routes, with_default_proxy,
}

-- The configuration is prepared, the service and the exporter have the same one, the service is
-- tidy, and no exporter but the current one is left running.
pub record IsCoherent (s : Server) : Type 0 where
  pub prepared : prepare_config s.cfg ≡ s.cfg
  pub service : s.service.cfg ≡ s.cfg
  pub tidy : IsTidy s.service
  pub tracked : IsTracked s.metrics
  pub enabled : s.metrics.enabled ≡ s.cfg.prometheus_enabled
  pub port : s.metrics.port ≡ s.cfg.prometheus_port

-- A new server is coherent, whatever configuration it is given: with routes-IsCoherent, it is so
-- after any sequence of requests.
pub new_server-IsCoherent :
    (given : Config) (path : Option String) (disk : Document)
    → IsCoherent (new_server given path disk)
unfolding new_server new_service new_metrics flaresolverr_go.Prelude.trim
new_server-IsCoherent given path disk = record {
  prepared = prepare_config_idem given;
  service = prepare_config_idem given;
  tidy = record { valid = new_session_store-IsValid _; balanced = refl; trimmed = refl };
  tracked = new_metrics-IsTracked (prepare_config given);
  enabled = refl;
  port = refl;
}

pub apply_config-IsCoherent :
    (shutdown : HttpServer → Option Error) (given : Config) (s : Server)
    → IsCoherent s
    → IsCoherent (apply_config shutdown given s).2
      × IsServing (apply_config shutdown given s).2.metrics
unfolding apply_config
apply_config-IsCoherent shutdown given s c =
    let cfg = prepare_config given in
    let (tidy, gone, agent, same) = apply_config-IsTidy cfg s.service c.tidy in
    let (tracked, serving, enabled, port) =
      apply_config-IsServing shutdown cfg s.metrics c.tracked in
    (
      record {
        prepared = prepare_config_idem given;
        service = same ∙ prepare_config_idem given;
        tidy = tidy;
        tracked = tracked;
        enabled = enabled;
        port = port;
      },
      serving,
    )

applied-server :
    (path : String) (o : List String × Option Error × Server) → (applied path o).1 ≡ o.2
unfolding applied
applied-server path (restart, none, s) = refl
applied-server path (restart, some e, s) = refl

saved-IsCoherent :
    (o : Outside) (cfg : Config) (s : Server) (r : Result String)
    → IsCoherent s
    → IsCoherent (saved o cfg s r).1
unfolding saved
saved-IsCoherent o cfg s (err e) c = c
saved-IsCoherent o cfg s (ok path) c =
    let s' = record s {
      config_path = path;
      disk = tree (render_config_yaml s.disk (config_file_from_config cfg));
    } in
    subst IsCoherent (sym (applied-server path (apply_config o.shutdown cfg s')))
      (apply_config-IsCoherent o.shutdown cfg s' (record {
        prepared = c.prepared;
        service = c.service;
        tidy = c.tidy;
        tracked = c.tracked;
        enabled = c.enabled;
        port = c.port;
      })).0

guarded-IsCoherent :
    (o : Outside) (r : HttpRequest) (s : Server) (x : Result (Unit {0}))
    → IsCoherent s
    → IsCoherent (guarded o r s x).1
unfolding guarded decoded accepted
guarded-IsCoherent o r s (err e) c = c
guarded-IsCoherent o r s (ok x) c = go r.settings
  where
    at_config : (x : Result Config) → IsCoherent (accepted o s x).1
    at_config (err e) = c
    at_config (ok cfg) = saved-IsCoherent o cfg s (o.save cfg) c

    go : (p : Option Payload) → IsCoherent (decoded o s p).1
    go none = c
    go (some payload) = at_config (to_config o.parse_url payload s.cfg)

controller-Keeps :
    (w : World) (req : Option Request) (s : Service) → Keeps s (controller_v1 w req s).2
unfolding controller_v1
controller-Keeps w req s = handle_v1-Keeps w req s

if_observed :
    (o : Outside) (req : Request) (res : Response) (b : Bool) (m : Metrics)
    → IsTracked m
    → let m' = if b then observe o.hostname req res m else m in
      IsTracked m' × (m'.enabled ≡ m.enabled) × (m'.port ≡ m.port)
if_observed o req res true m t = observe-IsTracked o.hostname req res m t
if_observed o req res false m t = (t, refl, refl)

observed-IsCoherent :
    (o : Outside) (req : Request) (s : Server) (x : Response × ℕ × Service)
    → Keeps s.service x.2
    → IsCoherent s
    → IsCoherent (observed o req s x).1
unfolding observed
observed-IsCoherent o req s (res, status, service) k c =
    let (tracked, enabled, port) =
      if_observed o req res s.cfg.prometheus_enabled s.metrics c.tracked in
    record {
      prepared = c.prepared;
      service = k.cfg ∙ c.service;
      tidy = k.tidy c.tidy;
      tracked = tracked;
      enabled = enabled ∙ c.enabled;
      port = port ∙ c.port;
    }

v1_decoded-IsCoherent :
    (o : Outside) (s : Server) (x : Option Request) → IsCoherent s → IsCoherent (v1_decoded o s x).1
unfolding v1_decoded
v1_decoded-IsCoherent o s none c = c
v1_decoded-IsCoherent o s (some req) c =
    let req' = with_default_proxy s.cfg req in
    observed-IsCoherent o req' s (controller_v1 o.world (some req') s.service)
      (controller-Keeps o.world (some req') s.service) c

module _ (P : Answer × Server → Type 0) where
  at_if : (b : Bool) (p q : Answer × Server) → P p → P q → P (if b then p else q)
  at_if true p q k l = k
  at_if false p q k l = l

-- Every HTTP request, whatever its path, its method and its outcome, leaves a coherent server
-- coherent: the server, its service and its exporter have the same prepared configuration, every
-- entry of the session store is an open session, every browser launched for one request is closed,
-- and no exporter but the current one is left running.
pub routes-IsCoherent :
    (o : Outside) (r : HttpRequest) (s : Server) → IsCoherent s → IsCoherent (routes o r s).1
unfolding routes handle_settings_api handle_v1_post
routes-IsCoherent o r s c = at_if P (r.path == "/health") _ _ c (
    at_if P (r.path == "/settings") _ _ c (
      at_if P (r.path == "/api/settings") _ _
        (at_if P (r.method == "GET") _ _ c
          (at_if P (r.method == "POST") _ _ (guarded-IsCoherent o r s _ c) c))
        (at_if P (r.path == "/v1") _ _
          (at_if P (r.method == "POST") _ _ (v1_decoded-IsCoherent o s r.v1 c) c)
          (at_if P (not (r.path == "/")) _ _ c c))))
  where
    P : Answer × Server → Type 0
    P x = IsCoherent x.1
