-- ===== src/Tests/Requests.antt =====
-- Requests to the service and to the server at concrete inputs.
use flaresolverr_go.Prelude.{
  String, true, false, subst, ok-injective, if◌then◌else◌, ◌==◌, ◌&&◌, ltb, List, Option, none,
  some, [], ◌∷◌, ◌≡◌, ◌↔◌, ◌⊎◌, refl, ok, trim, to_lower, equal_fold,
}
use flaresolverr_go.Prelude.Int.{pos}
use flaresolverr_go.Config.{
  Config, Proxy, default_config_values, prepare_config, canonical_browser_backend,
}
use flaresolverr_go.Config.Load.{resolve_config_path, read_config_file}
use flaresolverr_go.Settings.{Url, Payload, Headers, payload_from_config}
use flaresolverr_go.Session.Calls.Alone.{view}
use flaresolverr_go.Service.Types.{
  Request, Response, Solution, Service, World, http_get, new_service,
}
use flaresolverr_go.Service.Resolve.{resolve_challenge}
use flaresolverr_go.Service.Resolve.Upkeep.{Keeps, IsTidy, session_proxy_is_ignored}
use flaresolverr_go.Service.{cmd_request, request_error, handle_v1, controller_v1, apply_config}
use flaresolverr_go.Service.Upkeep.{handle_v1-Keeps, apply_config-IsTidy}
use flaresolverr_go.Service.Replies.{
  IsReply, IsSound, controller_v1-IsReply, request_error_iff, answered-IsSound,
}
use flaresolverr_go.Metrics.{observe, domain_of, Metrics}
use flaresolverr_go.Metrics.Results.{failure-counted}
use flaresolverr_go.Factory.{Machine, new_browser}
use flaresolverr_go.Factory.Launch.{IsUsable, IsLaunched, new_browser-IsLaunched}
use flaresolverr_go.Server.{Server, HttpRequest, Outside, new_server, handle_settings_api, routes}
use flaresolverr_go.Server.Coherence.{IsCoherent, new_server-IsCoherent, routes-IsCoherent}
use flaresolverr_go.Server.Saving.{
  IsSaved, IsPersisted, handle_settings_api-IsAtomic, saved_is_loaded,
}
use flaresolverr_go.Config.RoundTrip.{reads}
use flaresolverr_go.Config.Yaml.{Document, absent, read_document}
use flaresolverr_go.Tests.Documents.{decode, decode-Decodes, existing, existing-IsMergeable}

abbrev solution : Solution
solution = record {
  url = "https://example.org/";
  status = 200;
  headers = [];
  response = "<html></html>";
  cookies = [];
  user_agent = " agent ";
  screenshot = "";
  turnstile_token = "";
}

abbrev parse_url : String → Option Url
parse_url s = some (record { scheme = "https"; host = "example.org" })

abbrev world : World
world = record {
  factory = λ cfg proxy. ok 7;
  resolve = λ b req. ok (record { result = some solution; message = "Challenge solved!" });
  agent_of = λ b. ok "agent";
  parse_url = parse_url;
  format_elapsed_seconds = λ d. "1.0";
  random = "random";
  now = 10;
  elapsed = 20;
  start_ms = 1000;
  end_ms = 2000;
}

abbrev request : Request
request = record {
  cmd = "request.get";
  cookies = [];
  max_timeout = pos 60000;
  proxy = none;
  session = "";
  session_ttl_minutes = pos 0;
  url = "https://example.org/";
  post_data = "";
  return_only_cookies = false;
  return_screenshot = false;
  wait_in_seconds = pos 0;
  disable_media = none;
  tabs_till_verify = none;
}

abbrev service : Service
service = new_service default_config_values

handle_v1-Keeps_example : Keeps service (handle_v1 world (some request) service).1
handle_v1-Keeps_example = handle_v1-Keeps world (some request) service

controller_v1-IsReply_example :
    let (res, status, s) = controller_v1 world (some request) service in
    IsReply res status
    × (res.version ≡ s.cfg.version)
    × (res.start_timestamp ≡ 1000)
    × (res.end_timestamp ≡ 2000)
controller_v1-IsReply_example = controller_v1-IsReply world (some request) service

request_error_iff_example :
    (request_error world request http_get ≡ none) ↔ IsSound world request http_get
request_error_iff_example = request_error_iff world request http_get

-- The state that the request leaves.
abbrev after : Service
after = (cmd_request world request http_get service).1

abbrev answer : Response
answer = record {
  status = "ok";
  message = "Challenge solved!";
  session = "";
  sessions = none;
  start_timestamp = 0;
  end_timestamp = 0;
  version = "";
  solution = some solution;
}

answered-IsSound_example : IsSound world request http_get
unfolding cmd_request request_error resolve_challenge equal_fold
answered-IsSound_example = answered-IsSound world request http_get service after answer refl

abbrev in_session : Request
in_session = record request { session = "x" }

abbrev proxy : Option Proxy
proxy = some (record { url = "http://proxy:8080"; username = ""; password = "" })

session_proxy_is_ignored_example :
    resolve_challenge world (record in_session { proxy = proxy }) http_get service
    ≡ resolve_challenge world in_session http_get service
session_proxy_is_ignored_example =
    session_proxy_is_ignored world in_session http_get service proxy refl

abbrev outside : Outside
outside = record {
  world = world;
  parse_media_type = λ s. some s;
  parse_url = parse_url;
  hostname = λ url. some "example.org";
  save = λ cfg. ok "/etc/init.yaml";
  shutdown = λ e. none;
}

abbrev server : Server
server = new_server default_config_values (some "/etc/init.yaml") existing

server-IsCoherent : IsCoherent server
server-IsCoherent = new_server-IsCoherent default_config_values (some "/etc/init.yaml") existing

apply_config-IsTidy_example :
    IsTidy (apply_config default_config_values server.service)
    × ((k : String) → view (apply_config default_config_values server.service).store k ≡ none)
    × ((apply_config default_config_values server.service).user_agent ≡ "")
    × ((apply_config default_config_values server.service).cfg
        ≡ prepare_config default_config_values)
apply_config-IsTidy_example =
    apply_config-IsTidy default_config_values server.service server-IsCoherent.tidy

abbrev payload : Payload
payload = record (payload_from_config default_config_values) {
  host = " 127.0.0.1 ";
  port = pos 8080;
}

abbrev headers : Headers
headers = record {
  content_type = "application/json";
  sec_fetch_site = "same-origin";
  origin = "https://example.org";
  host = "example.org";
}

abbrev posted : HttpRequest
posted = record {
  path = "/v1";
  method = "POST";
  headers = headers;
  v1 = some request;
  settings = none;
}

routes-IsCoherent_example : IsCoherent (routes outside posted server).1
routes-IsCoherent_example = routes-IsCoherent outside posted server server-IsCoherent

abbrev fetched : HttpRequest
fetched = record {
  path = "/api/settings";
  method = "GET";
  headers = headers;
  v1 = none;
  settings = none;
}

abbrev saving : HttpRequest
saving = record {
  path = "/api/settings";
  method = "POST";
  headers = headers;
  v1 = none;
  settings = some payload;
}

handle_settings_api-IsAtomic_example :
    ((handle_settings_api outside saving server).1 ≡ server)
    ⊎ IsSaved outside saving server (handle_settings_api outside saving server).1
handle_settings_api-IsAtomic_example = handle_settings_api-IsAtomic outside saving server

abbrev documents : String → Document
documents path = if path == "/etc/init.yaml" then existing else absent

abbrev paths : List String
paths = "/etc/init.yaml" ∷ []

first_path : resolve_config_path (reads decode documents) paths ≡ some "/etc/init.yaml"
unfolding resolve_config_path read_config_file read_document
first_path = refl

finds :
    (cfg : Config) (path : String)
    → outside.save cfg ≡ ok path
    → (resolve_config_path (reads decode documents) paths ≡ some path)
      × (documents path ≡ server.disk)
unfolding new_server
finds cfg path e =
    subst
      (λ p.
        (resolve_config_path (reads decode documents) paths ≡ some p) × (documents p ≡ server.disk))
      (ok-injective e) (first_path, refl)

saved_is_loaded_example :
    IsPersisted decode
      (λ s. none)
      documents
      paths
      saving
      server
      (handle_settings_api outside saving server)
unfolding new_server default_config_values prepare_config trim flaresolverr_go.Config.with_defaults
    flaresolverr_go.Config.default_text
saved_is_loaded_example =
    saved_is_loaded decode outside saving server (λ s. none) documents paths decode-Decodes refl
      existing-IsMergeable finds

-- A machine with chromedriver and no Firefox, which starts browser 7.
abbrev machine : Machine
machine = record {
  look_path = λ name. none;
  home = none;
  file_exists = λ path. false;
  looks_like_gecko_install = λ path. false;
  base = λ path. path;
  join_path = λ parts. "/root/.cache/camoufox/camoufox";
  quote = λ s. s;
  parse_url = λ s. ok (record { scheme = "HTTP"; hostname = "proxy"; port = "8080" });
  geckodriver_path = λ cfg. ok "";
  chromedriver_path = λ cfg. ok "/usr/bin/chromedriver";
  start = λ backend c asked. ok 7;
}

new_browser-IsLaunched_example : IsUsable machine proxy × IsLaunched machine proxy 7
unfolding new_browser default_config_values trim to_lower canonical_browser_backend
    flaresolverr_go.Config.with_defaults flaresolverr_go.Config.default_text
    flaresolverr_go.Factory.firefox_candidates
new_browser-IsLaunched_example = new_browser-IsLaunched machine default_config_values proxy 7 refl

abbrev metrics : Metrics
metrics = record server.metrics { enabled = true }

failure-counted_example :
    (observe outside.hostname request (controller_v1 world none service).0 metrics).counts ≡ (
      if metrics.enabled
        && (ltb 0 (controller_v1 world none service).0.start_timestamp
            && ltb 0 (controller_v1 world none service).0.end_timestamp)
      then (domain_of outside.hostname request (controller_v1 world none service).0, "error")
        ∷ metrics.counts
      else metrics.counts)
unfolding controller_v1 handle_v1
failure-counted_example = failure-counted outside.hostname metrics request world none service refl
