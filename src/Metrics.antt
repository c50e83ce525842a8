-- ===== src/Metrics.antt =====
-- server/metrics.go: the Prometheus exporter. An HTTP server of net/http is its identity and its
-- port; `started` and `stopped` are those that were started and those whose Shutdown was called,
-- the last one first. What Shutdown answers is an argument, and so is url.Parse with Hostname.
pub mod Exporter
pub mod Results
use flaresolverr_go.Prelude.{
  ℕ, suc, String, Bool, true, false, not, ◌&&◌, ◌||◌, Option, none, some, is_some, is_none, List,
  [], ◌∷◌, ◌==◌, eqb, has_prefix, if◌then◌else◌, Error, or_else,
}
use flaresolverr_go.Prelude.Int.{ℤ, pos, eqb_ℤ, ◌-ℤ◌}
use flaresolverr_go.Config.{Config}
use flaresolverr_go.Service.Types.{Request, Response, Solution}

pub record HttpServer : Type 0 where
  pub id : ℕ
  pub port : ℤ

-- `durations` and `counts` are the calls of the histogram and of the counter, the last one first:
-- the domain with the milliseconds, and with the result.
pub record Metrics : Type 0 where
  pub enabled : Bool
  pub port : ℤ
  pub server : Option HttpServer
  pub started : List HttpServer
  pub stopped : List HttpServer
  pub next : ℕ
  pub durations : List (String × ℤ)
  pub counts : List (String × String)

unfoldable pub new_metrics : Config → Metrics
new_metrics cfg = record {
  enabled = cfg.prometheus_enabled;
  port = cfg.prometheus_port;
  server = none;
  started = [];
  stopped = [];
  next = 0;
  durations = [];
  counts = [];
}

bool_differs : Bool → Bool → Bool
bool_differs true b = not b
bool_differs false b = b

-- The first critical section takes the server away when the settings have changed.
take_server : Config → Metrics → Option HttpServer
unfolding bool_differs
take_server cfg m =
    if not (eqb_ℤ cfg.prometheus_port m.port) || bool_differs cfg.prometheus_enabled m.enabled
    then m.server
    else none

keep_server : Config → Metrics → Option HttpServer
unfolding bool_differs
keep_server cfg m =
    if not (eqb_ℤ cfg.prometheus_port m.port) || bool_differs cfg.prometheus_enabled m.enabled
    then none
    else m.server

abbrev push : Option HttpServer → List HttpServer → List HttpServer
push none servers = servers
push (some e) servers = e ∷ servers

abbrev stop_error : (HttpServer → Option Error) → Option HttpServer → Option Error
stop_error shutdown none = none
stop_error shutdown (some e) = shutdown e

-- The last part of ApplyConfig: a server is started if one is needed.
start_if : Bool → Metrics → Metrics
start_if false m = m
start_if true m =
    let e : HttpServer = record { id = m.next; port = m.port } in
    record m { server = some e; started = e ∷ m.started; next = suc m.next }

unfoldable pub apply_config :
    (HttpServer → Option Error) → Config → Metrics → Option Error × Metrics
unfolding take_server keep_server start_if
apply_config shutdown cfg m =
    let old = take_server cfg m in
    let kept = keep_server cfg m in
    (
      stop_error shutdown old,
      start_if (cfg.prometheus_enabled && is_none kept) (record m {
        enabled = cfg.prometheus_enabled;
        port = cfg.prometheus_port;
        server = kept;
        stopped = push old m.stopped;
      }),
    )

-- Start: ApplyConfig with the settings that are there, and what it answers is dropped.
unfoldable pub start : (HttpServer → Option Error) → Config → Metrics → Metrics
unfolding apply_config
start shutdown base m =
    (apply_config shutdown
      (record base { prometheus_enabled = m.enabled; prometheus_port = m.port }) m).1

unfoldable pub shut_down : (HttpServer → Option Error) → Metrics → Option Error × Metrics
shut_down shutdown m =
    (stop_error shutdown m.server, record m { server = none; stopped = push m.server m.stopped })

unfoldable pub prometheus_result : String → String
prometheus_result message =
    if message == "Challenge solved!"
    then "solved"
    else if message == "Challenge not detected!"
    then "not_detected"
    else if has_prefix message "Error"
    then "error"
    else "unknown"

-- if domain == "" { domain = "unknown" }
abbrev or_unknown : String → String
or_unknown domain = if domain == "" then "unknown" else domain

module _ (hostname : String → Option String) where
  unfoldable pub parse_domain_url : String → String
  parse_domain_url raw = or_else (hostname raw) "unknown"

  solution_url : Option Solution → String
  solution_url none = ""
  solution_url (some solution) = solution.url

  unfoldable pub domain_of : Request → Response → String
  unfolding parse_domain_url solution_url
  domain_of req res = or_unknown (
      if not (solution_url res.solution == "")
      then parse_domain_url (solution_url res.solution)
      else if not (req.url == "")
      then parse_domain_url req.url
      else "unknown")

  unfoldable pub observe : Request → Response → Metrics → Metrics
  unfolding domain_of
  observe req res m =
      if not m.enabled || (eqb res.start_timestamp 0 || eqb res.end_timestamp 0)
      then m
      else record m {
        durations =
            (domain_of req res, pos res.end_timestamp -ℤ pos res.start_timestamp) ∷ m.durations;
        counts = (domain_of req res, prometheus_result res.message) ∷ m.counts;
      }
