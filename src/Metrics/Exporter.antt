-- ===== src/Metrics/Exporter.antt =====
-- server/metrics.go: which exporter runs after the settings have changed.
use flaresolverr_go.Prelude.{
  String, eqb, Bool, true, false, not, ◌&&◌, ◌||◌, Option, none, some, is_some, is_none, ◌∷◌, ◌≡◌,
  refl, Error, arith, ap, inl, inr, Bool-cases, ◌∙◌,
}
use flaresolverr_go.Prelude.Int.{eqb_ℤ}
use flaresolverr_go.Config.{Config}
use flaresolverr_go.Service.Types.{Request, Response}
use flaresolverr_go.Metrics.{
  observe, HttpServer, Metrics, new_metrics, take_server, keep_server, push, start_if, apply_config,
  shut_down, bool_differs,
}

-- Every server that was started has been shut down, but for the current one, which exists only
-- while the exporter is enabled and listens on its port.
pub record IsTracked (m : Metrics) : Type 0 where
  pub all_stopped : m.started ≡ push m.server m.stopped
  pub enabled : is_some m.server ≡ true → m.enabled ≡ true
  pub port : (e : HttpServer) → m.server ≡ some e → e.port ≡ m.port

-- The exporter runs if and only if it is enabled, on the port that it is set to.
pub IsServing : Metrics → Type 0
IsServing m =
    (is_some m.server ≡ m.enabled) × ((e : HttpServer) → m.server ≡ some e → e.port ≡ m.port)

pub new_metrics-IsTracked : (cfg : Config) → IsTracked (new_metrics cfg)
unfolding new_metrics
new_metrics-IsTracked cfg = record {
  all_stopped = refl;
  enabled = λ h. ground arith;
  port = λ e h. ground arith;
}

new : Metrics → HttpServer
new m = record { id = m.next; port = m.port }

started-Laws :
    (b : Bool) (m : Metrics)
    → IsTracked m
    → b ≡ (m.enabled && is_none m.server)
    → let m' = start_if b m in
      IsTracked m' × IsServing m' × (m'.enabled ≡ m.enabled) × (m'.port ≡ m.port)
unfolding start_if new IsServing
started-Laws true m t h = (
  record {
    all_stopped = ap (λ l. new m ∷ l) (go m.server t.all_stopped (ground arith));
    enabled = λ _. ground arith;
    port = λ e q. ground arith;
  },
  (ground arith, λ e q. ground arith),
  refl,
  refl,
)
  where
    go :
        (o : Option HttpServer)
        → m.started ≡ push o m.stopped
        → is_none o ≡ true
        → m.started ≡ m.stopped
    go none e n = e
    go (some x) e n = absurd (ground arith)
started-Laws false m t h = (t, (go m.server refl, t.port), refl, refl)
  where
    go : (o : Option HttpServer) → m.server ≡ o → is_some m.server ≡ m.enabled
    go none e = ground (arith, t.enabled)
    go (some x) e = ground (arith, t.enabled)

taken-IsTracked :
    (cfg : Config) (m : Metrics)
    → IsTracked m
    → IsTracked (record m {
      enabled = cfg.prometheus_enabled;
      port = cfg.prometheus_port;
      server = keep_server cfg m;
      stopped = push (take_server cfg m) m.stopped;
    })
unfolding take_server keep_server bool_differs
taken-IsTracked cfg m t =
    elim (Bool-cases
      (not (eqb_ℤ cfg.prometheus_port m.port) || bool_differs cfg.prometheus_enabled m.enabled)) [
        | inl h ↦ rw h (record {
          all_stopped = t.all_stopped;
          enabled = λ q. ground arith;
          port = λ e q. ground arith;
        })
        | inr h ↦ rw h (record {
          all_stopped = t.all_stopped;
          enabled = λ q. ground (arith, t.enabled q);
          port = λ e q. t.port e q ∙ ground arith;
        })
      ]

-- For an exporter all of whose earlier servers were shut down, and whatever shutting the current
-- one down answers: applying a configuration sets the two settings and leaves the exporter running
-- exactly when it is enabled, on the configured port, with every other server that was ever
-- started shut down.
pub apply_config-IsServing :
    (shutdown : HttpServer → Option Error) (cfg : Config) (m : Metrics)
    → IsTracked m
    → let m' = (apply_config shutdown cfg m).1 in
      IsTracked m'
      × IsServing m'
      × (m'.enabled ≡ cfg.prometheus_enabled)
      × (m'.port ≡ cfg.prometheus_port)
unfolding apply_config
apply_config-IsServing shutdown cfg m t =
    let (t', s, e, p) =
      started-Laws (cfg.prometheus_enabled && is_none (keep_server cfg m)) _
        (taken-IsTracked cfg m t) refl in
    (t', s, e, p)

-- Shutting down an exporter all of whose earlier servers were shut down leaves no server, and
-- every server that was ever started shut down.
pub shut_down-IsTracked :
    (shutdown : HttpServer → Option Error) (m : Metrics)
    → IsTracked m
    → let m' = (shut_down shutdown m).1 in
      IsTracked m' × (m'.server ≡ none) × (m'.started ≡ m'.stopped)
unfolding shut_down
shut_down-IsTracked shutdown m t = (
  record { all_stopped = t.all_stopped; enabled = λ q. ground arith; port = λ e q. ground arith },
  refl,
  t.all_stopped,
)

pub observe-IsTracked :
    (hostname : String → Option String) (req : Request) (res : Response) (m : Metrics)
    → IsTracked m
    → let m' = observe hostname req res m in
      IsTracked m' × (m'.enabled ≡ m.enabled) × (m'.port ≡ m.port)
unfolding observe
observe-IsTracked hostname req res m t =
    elim (Bool-cases (not m.enabled || (eqb res.start_timestamp 0 || eqb res.end_timestamp 0))) [
      | inl e ↦ rw e (t, refl, refl)
      | inr e ↦
          rw e
            (record { all_stopped = t.all_stopped; enabled = t.enabled; port = t.port }, refl, refl)
    ]
