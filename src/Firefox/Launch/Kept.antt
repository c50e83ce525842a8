-- ===== src/Firefox/Launch/Kept.antt =====
-- server/browser/geckodriver/browser.go: what a Firefox backend leaves behind. Kept/Driven is about the
-- steps from the driver's start on, Kept/Settled about NewGeckoDriver and Close.
pub mod Driven
pub mod Settled
use flaresolverr_go.Prelude.{
  ℕ, suc, ◌+◌, ◌-◌, ◌≤◌, ◌<◌, String, Bool, true, false, not, ◌||◌, Option, none, some, is_some,
  List, length, if◌then◌else◌, ◌==◌, ◌≡◌, refl, if_cases, if_both, arith, Result, ok, err, Error,
  failure, trim,
}
use flaresolverr_go.Prelude.Acts.{Act, after, ◌>>=◌, ◌>>◌, explained, reads, skip, demand}
use flaresolverr_go.Prelude.Acts.Triples.{Leaves, Triple, bind, choice, kept, given, both, weaker}
use flaresolverr_go.Config.{is_blank}
use flaresolverr_go.Protocol.Process
use flaresolverr_go.Protocol.Process.{Driver, DriverSpec, start_driver, stop}
use flaresolverr_go.Protocol.Process.Life.{
  IsGone, IsStarted, IsSound, stop-IsGone, start_driver-IsStarted,
}
use flaresolverr_go.Firefox.{
  Gecko, Surroundings, Outcome, profile_made, prepare_profile_dir, runtime_made,
  prepare_driver_runtime_dir, displayed, with_xvfb, prepare_headless_mode, set_headless, specified,
  prepare_driver, driver_started, launch_driver, start_gecko_driver,
}
use flaresolverr_go.Firefox.Launch.{
  build_proxy_capability, needs_bidi, firefox_args, session_made, set_web_socket_url,
  create_session, auth_installed, dialled, enable_proxy_auth, close_bidi, delete_session,
  stop_driver, remove_driver_runtime_dir, cleanup_profile_dir, stop_display, close_gecko,
  unless_failed, closing_start, or_close, profiled, new_gecko, new_gecko_driver,
}

abbrev pub count : Bool → ℕ
count b = if b then 1 else 0

pub Owned : Bool → Driver → Type 0
Owned true d = (d.running ≡ true) × (d.has_command ≡ true)
Owned false d = IsGone d

-- What is there is what the fields of the backend stand for.
pub record IsTracked (g : Gecko) : Type 0 where
  pub owned : Owned g.has_driver g.process
  pub dirs : g.dirs ≡ count (is_some g.profile_dir) + count (is_some g.driver_runtime_dir)
  pub displays : g.displays ≡ count g.has_xvfb
  pub sockets : g.sockets ≡ count g.has_bidi

-- No process, directory, display or socket is left.
pub record IsReleased (g : Gecko) : Type 0 where
  pub process : IsGone g.process
  pub dirs : g.dirs ≡ 0
  pub displays : g.displays ≡ 0
  pub sockets : g.sockets ≡ 0

Owned-IsSound : (b : Bool) (d : Driver) → b ≡ true → Owned b d → IsSound d
unfolding Owned
Owned-IsSound true d e o = λ c. cc
Owned-IsSound false d e o = λ c. o.stopped

Owned-IsGone : (b : Bool) (d : Driver) → b ≡ false → Owned b d → IsGone d
unfolding Owned
Owned-IsGone true d e o = cc
Owned-IsGone false d e o = o

gone-Owned : (b : Bool) (d : Driver) → b ≡ false → IsGone d → Owned b d
unfolding Owned
gone-Owned true d e s = cc
gone-Owned false d e s = s

-- Before the start of the driver, and before that of a display.
abbrev pub IsIdle : Gecko → Type 0
IsIdle g = IsTracked g × ((g.has_driver ≡ false) × (g.has_bidi ≡ false))

abbrev pub IsDark : Gecko → Type 0
IsDark g = IsIdle g × (g.has_xvfb ≡ false)

module _ (e : Surroundings) where
  close_gecko-IsReleased : (g : Gecko) → IsTracked g → IsReleased (close_gecko e g)
  unfolding close_gecko close_bidi delete_session stop_driver remove_driver_runtime_dir
      cleanup_profile_dir stop_display
  close_gecko-IsReleased g t = record {
    process =
        if_cases IsGone g.has_driver
          (λ b. stop-IsGone e.host g.process (Owned-IsSound g.has_driver g.process b t.owned))
          (λ b. Owned-IsGone g.has_driver g.process b t.owned);
    dirs = let d = t.dirs in ground arith;
    displays = let d = t.displays in ground arith;
    sockets = let d = t.sockets in ground arith;
  }

  displayed-IsIdle : (r : Result String) → Triple IsDark (displayed e r) (λ _. IsIdle) IsIdle
  unfolding displayed
  displayed-IsIdle (err x) = record { holds = λ g h. h.0 }
  displayed-IsIdle (ok display) = record {
    holds = λ g h.
        let t = h.0.0 in
        (
          record {
            owned = t.owned;
            dirs = t.dirs;
            displays = let d = t.displays in ground arith;
            sockets = t.sockets;
          },
          h.0.1,
        );
  }

  with_xvfb-IsIdle : (path : Option String) → Triple IsDark (with_xvfb e path) (λ _. IsIdle) IsIdle
  unfolding with_xvfb
  with_xvfb-IsIdle none = record { holds = λ g h. h.0 }
  with_xvfb-IsIdle (some path) = displayed-IsIdle (e.start_xvfb path)

  headless-IsIdle : Triple IsDark (prepare_headless_mode e) (λ _. IsIdle) IsIdle
  unfolding prepare_headless_mode
  headless-IsIdle =
      choice (not e.config.headless || e.windows) (record { holds = λ g h. h.0 })
        (choice (not (e.display == "")) (record { holds = λ g h. h.0 })
          (with_xvfb-IsIdle (e.machine.look_path "Xvfb")))

  runtime_made-IsIdle :
      (r : Result String) (g : Gecko)
      → is_some g.driver_runtime_dir ≡ false
      → IsIdle g
      → Leaves (λ _. IsIdle) IsIdle (runtime_made e r g)
  unfolding runtime_made
  runtime_made-IsIdle (err x) g n h = h
  runtime_made-IsIdle (ok dir) g n h =
      let t = h.0 in
      (
        record {
          owned = t.owned;
          dirs = let d = t.dirs in ground arith;
          displays = t.displays;
          sockets = t.sockets;
        },
        h.1,
      )

  runtime-IsIdle : Triple IsIdle (prepare_driver_runtime_dir e) (λ _. IsIdle) IsIdle
  unfolding prepare_driver_runtime_dir
  runtime-IsIdle = record {
    holds = λ g h.
        if_cases (Leaves (λ _. IsIdle) IsIdle) (is_some g.driver_runtime_dir) (λ _. h)
          (λ n. runtime_made-IsIdle (e.create_transient_dir "flaresolverr-go-geckodriver-*") g n h);
  }

  -- A result that does not depend on the backend.
  asked :
      {A : Type 0} (P : Gecko → Type 0) (r : Result A)
      → ((g : Gecko) → P g → IsIdle g)
      → Triple P (reads (λ _. r)) (λ _. P) IsIdle
  asked P (ok a) w = record { holds = λ g h. h }
  asked P (err x) w = record { holds = w }

  set_headless-IsIdle : (b : Bool) → Triple IsIdle (set_headless e b) (λ _. IsIdle) IsIdle
  unfolding set_headless
  set_headless-IsIdle b = record {
    holds = λ g h.
        let t = h.0 in
        (
          record { owned = t.owned; dirs = t.dirs; displays = t.displays; sockets = t.sockets },
          h.1,
        );
  }

  specified-IsIdle :
      (port ws_port : ℕ) (display : String)
      → Triple IsIdle (specified e port ws_port display) (λ _. IsIdle) IsIdle
  unfolding specified
  specified-IsIdle port ws_port display = record {
    holds = λ g h.
        let t = h.0 in
        (
          record { owned = t.owned; dirs = t.dirs; displays = t.displays; sockets = t.sockets },
          h.1,
        );
  }

  prepare_driver-IsIdle : Triple IsDark (prepare_driver e) (λ _. IsIdle) IsIdle
  unfolding prepare_driver
  prepare_driver-IsIdle =
      bind {Q = λ _. IsDark} {m = reads (λ _. explained "reserve geckodriver port: " e.free_port)}
        (asked IsDark (explained "reserve geckodriver port: " e.free_port) (λ g h. h.0))
        (λ port. bind {Q = λ _. IsIdle} {m = prepare_headless_mode e} headless-IsIdle (λ mode.
          bind {Q = λ _. IsIdle} {m = set_headless e mode.0} (set_headless-IsIdle mode.0) (λ _.
            bind {Q = λ _. IsIdle}
              {m = reads
                (λ _. explained "reserve geckodriver websocket port: " e.free_web_socket_port)}
              (asked IsIdle
                (explained "reserve geckodriver websocket port: " e.free_web_socket_port)
                (λ g h. h))
              (λ ws_port.
                bind {Q = λ _. IsIdle}
                  {m = if e.config.debug_logging then prepare_driver_runtime_dir e else skip}
                  (choice e.config.debug_logging {m = prepare_driver_runtime_dir e} {k = skip}
                    runtime-IsIdle (record { holds = λ g h. h }))
                  (λ _. specified-IsIdle port ws_port mode.1)))))
