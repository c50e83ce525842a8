-- ===== src/Server.antt =====
-- server/server.go, the handlers of server/settings.go, and server/plugins.go. The listener, the
-- decoding of JSON, the writing of the file and net/http are arguments; logging is left out. One
-- request is served at a time, as applyMu makes the saving of settings.
pub mod Saving
pub mod Coherence
pub mod Panics
use flaresolverr_go.Prelude.{
  ℕ, String, Bool, true, false, not, ◌&&◌, ◌||◌, Option, none, some, is_none, List, [], ◌∷◌, ◌==◌,
  if◌then◌else◌, Error, failure, error_text, Result, ok, err,
}
use flaresolverr_go.Prelude.Int.{ℤ, eqb_ℤ}
use flaresolverr_go.Config.{Config, Proxy, prepare_config}
use flaresolverr_go.Config.Yaml.{Document, tree, render_config_yaml}
use flaresolverr_go.Config.Save.{config_file_from_config}
use flaresolverr_go.Settings.{
  ParseUrl, Payload, payload_from_config, to_config, Headers, guard_state_changing_request,
}
use flaresolverr_go.Service.Types.{Request, Response, Service, World, new_service, proxy_or}
use flaresolverr_go.Service.{controller_v1, apply_config as service_apply_config, close}
use flaresolverr_go.Metrics.{
  Metrics, HttpServer, new_metrics, apply_config as metrics_apply_config, observe, shut_down,
}

-- `disk` is the document at the path of the settings file.
pub record Server : Type 0 where
  pub cfg : Config
  pub service : Service
  pub metrics : Metrics
  pub config_path : String
  pub disk : Document

-- The bodies that writeJSON sends: an error with its status code, the four answers, and the page.
pub data Body : Type 0 where
  error_body : String → ℕ → Body
  index_body : String → String → String → Body
  health_body : String → Body
  v1_body : Response → Body
  settings_body : String → Payload → String → List String → Body
  page_body : Body

pub record Answer : Type 0 where
  pub status : ℕ
  pub body : Body

-- An HTTP request. `v1` and `settings` are the body as the JSON decoder reads it, none for an error.
pub record HttpRequest : Type 0 where
  pub path : String
  pub method : String
  pub headers : Headers
  pub v1 : Option Request
  pub settings : Option Payload

-- What is outside: `save` gives the path that SaveConfig wrote to, or its error.
pub record Outside : Type 0 where
  pub world : World
  pub parse_media_type : String → Option String
  pub parse_url : ParseUrl
  pub hostname : String → Option String
  pub save : Config → Result String
  pub shutdown : HttpServer → Option Error

unfoldable pub new_server : Config → Option String → Document → Server
new_server given path disk = record {
  cfg = prepare_config given;
  service = new_service (prepare_config (prepare_config given));
  metrics = new_metrics (prepare_config given);
  config_path = elim path [ none ↦ "" | some p ↦ p ];
  disk = disk;
}

abbrev pub error_answer : ℕ → String → Answer
error_answer status text = record { status = status; body = error_body text status }

-- The body has the text that http.StatusText gives.
abbrev pub not_found : Answer
not_found = error_answer 404 "Not Found"

abbrev pub method_not_allowed : Answer
method_not_allowed = error_answer 405 "Method Not Allowed"

unfoldable pub index : Service → Body
index s = index_body "FlareSolverr is ready!" s.cfg.version s.user_agent

abbrev differ : String → String → Bool
differ s t = not (s == t)

unfoldable pub restart_required : Config → Config → List String
restart_required current cfg =
    if differ current.host cfg.host || not (eqb_ℤ current.port cfg.port)
    then "main HTTP listen address" ∷ []
    else []

-- applyConfig: the list, and the error of the metrics.
unfoldable pub apply_config :
    (HttpServer → Option Error) → Config → Server → List String × Option Error × Server
apply_config shutdown given s =
    let cfg = prepare_config given in
    let (error, metrics) = metrics_apply_config shutdown cfg s.metrics in
    (
      restart_required s.cfg cfg,
      error,
      record s { cfg = cfg; service = service_apply_config cfg s.service; metrics = metrics },
    )

abbrev saved_answer : List String → String → Config → Answer
saved_answer restart path cfg = record {
  status = 200;
  body = settings_body "Settings saved and applied." (payload_from_config cfg) path restart;
}

applied : String → List String × Option Error × Server → Answer × Server
applied path (restart, some e, s) = (error_answer 500 (error_text e), s)
applied path (restart, none, s) = (saved_answer restart path s.cfg, s)

saved : Outside → Config → Server → Result String → Answer × Server
unfolding applied
saved o cfg s (err e) = (error_answer 500 (error_text e), s)
saved o cfg s (ok path) = applied path (
    apply_config o.shutdown cfg (record s {
      config_path = path;
      disk = tree (render_config_yaml s.disk (config_file_from_config cfg));
    }))

accepted : Outside → Server → Result Config → Answer × Server
unfolding saved
accepted o s (err e) = (error_answer 400 (error_text e), s)
accepted o s (ok cfg) = saved o cfg s (o.save cfg)

decoded : Outside → Server → Option Payload → Answer × Server
unfolding accepted
decoded o s none = (error_answer 400 "invalid json body", s)
decoded o s (some payload) = accepted o s (to_config o.parse_url payload s.cfg)

guarded : Outside → HttpRequest → Server → Result (Unit {0}) → Answer × Server
unfolding decoded
guarded o r s (err e) = (error_answer 403 (error_text e), s)
guarded o r s (ok x) = decoded o s r.settings

abbrev settings_answer : Server → Answer
settings_answer s = record {
  status = 200;
  body = settings_body "" (payload_from_config s.cfg) s.config_path [];
}

unfoldable pub handle_settings_api : Outside → HttpRequest → Server → Answer × Server
unfolding guarded
handle_settings_api o r s =
    if r.method == "GET"
    then (settings_answer s, s)
    else if r.method == "POST"
    then guarded o r s (guard_state_changing_request o.parse_media_type o.parse_url r.headers)
    else (method_not_allowed, s)

unfoldable pub handle_settings_page : HttpRequest → Answer
handle_settings_page r =
    if r.method == "GET" then record { status = 200; body = page_body } else method_not_allowed

-- The end of the /v1 handler, which observes the answer.
unfoldable pub observed : Outside → Request → Server → Response × ℕ × Service → Answer × Server
observed o req s (res, status, service) = (
  record { status = status; body = v1_body res },
  record s {
    service = service;
    metrics = if s.cfg.prometheus_enabled then observe o.hostname req res s.metrics else s.metrics;
  },
)

abbrev pub with_default_proxy : Config → Request → Request
with_default_proxy cfg req = record req { proxy = proxy_or req.proxy cfg.default_proxy }

v1_decoded : Outside → Server → Option Request → Answer × Server
unfolding observed
v1_decoded o s none = (error_answer 400 "invalid json body", s)
v1_decoded o s (some req) =
    let req = with_default_proxy s.cfg req in
    observed o req s (controller_v1 o.world (some req) s.service)

unfoldable pub handle_v1_post : Outside → HttpRequest → Server → Answer × Server
unfolding v1_decoded
handle_v1_post o r s = if r.method == "POST" then v1_decoded o s r.v1 else (method_not_allowed, s)

-- The mux: the exact paths, and "/" for every other one.
unfoldable pub routes : Outside → HttpRequest → Server → Answer × Server
routes o r s =
    if r.path == "/health"
    then (
      if r.method == "GET"
          then record { status = 200; body = health_body "ok" }
          else method_not_allowed,
      s,
    )
    else if r.path == "/settings"
    then (handle_settings_page r, s)
    else if r.path == "/api/settings"
    then handle_settings_api o r s
    else if r.path == "/v1"
    then handle_v1_post o r s
    else if differ r.path "/"
    then (not_found, s)
    else (
      if r.method == "GET"
          then record { status = 200; body = index s.service }
          else method_not_allowed,
      s,
    )

abbrev errors_of : Option Error → List Error → List Error
errors_of none rest = rest
errors_of (some e) rest = e ∷ rest

-- Shutdown, given what shutting the main listener down answers: the errors are joined.
unfoldable pub shut_down_server :
    (HttpServer → Option Error) → Option Error → Server → List Error × Server
shut_down_server shutdown listener s =
    let (error, metrics) = shut_down shutdown s.metrics in
    (
      errors_of listener (errors_of error []),
      record s { metrics = metrics; service = close s.service },
    )
