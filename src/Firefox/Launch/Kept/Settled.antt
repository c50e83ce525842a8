-- ===== src/Firefox/Launch/Kept/Settled.antt =====
-- server/browser/geckodriver/browser.go: NewGeckoDriver leaks nothing.
use flaresolverr_go.Prelude.{
  ℕ, ◌≤◌, ◌<◌, String, Bool, true, false, none, some, is_some, List, length, ◌≡◌, refl, if_both,
  Result, ok, err,
}
use flaresolverr_go.Prelude.Acts.Triples.{Leaves}
use flaresolverr_go.Config.{is_blank}
use flaresolverr_go.Protocol.Process
use flaresolverr_go.Protocol.Process.{Driver, DriverSpec, start_driver, stop}
use flaresolverr_go.Protocol.Process.Life.{start_driver-IsStarted}
use flaresolverr_go.Firefox.{
  Gecko, Surroundings, Outcome, profile_made, prepare_profile_dir, prepare_driver, launch_driver,
  start_gecko_driver,
}
use flaresolverr_go.Firefox.Launch.{
  create_session, enable_proxy_auth, close_gecko, unless_failed, closing_start, or_close, profiled,
  new_gecko, new_gecko_driver,
}
use flaresolverr_go.Firefox.Launch.Kept.{
  Owned, IsTracked, IsReleased, close_gecko-IsReleased, IsIdle, IsDark, prepare_driver-IsIdle,
}
use flaresolverr_go.Firefox.Launch.Kept.Driven.{
  IsDriven, IsMute, Ended, driver_started-Ended, create_session-IsMute, enable-IsDriven,
}

module _ (e : Surroundings) where
  unless_failed-Ended :
      (P : Gecko → Type 0) (x : Result (Unit {0}) × Gecko)
      → Leaves (λ _. P) IsTracked x
      → Ended P IsReleased (unless_failed e x)
  unfolding unless_failed Ended
  unless_failed-Ended P (ok y, g) h = h
  unless_failed-Ended P (err y, g) h = close_gecko-IsReleased e g h

  or_close-Ended :
      (P Q : Gecko → Type 0) (next : Gecko → Result (Unit {0}) × Gecko) (x : Outcome)
      → Ended P IsReleased x
      → ((g : Gecko) → P g → Leaves (λ _. Q) IsTracked (next g))
      → Ended Q IsReleased (or_close e next x)
  unfolding or_close Ended
  or_close-Ended P Q next (none, g) h k = h
  or_close-Ended P Q next (some (err y), g) h k = h
  or_close-Ended P Q next (some (ok y), g) h k = unless_failed-Ended Q (next g) (k g h)

  closing_start-Ended :
      (x : Outcome) → Ended IsMute IsTracked x → Ended IsMute IsReleased (closing_start e x)
  unfolding closing_start Ended
  closing_start-Ended (none, g) h = h
  closing_start-Ended (some (ok y), g) h = h
  closing_start-Ended (some (err y), g) h = close_gecko-IsReleased e g h

  Leaves-weaken :
      (P : Gecko → Type 0) (E : Gecko → Type 0) (x : Result (Unit {0}) × Gecko)
      → ((g : Gecko) → E g → IsTracked g)
      → Leaves (λ _. P) E x
      → Leaves (λ _. P) IsTracked x
  Leaves-weaken P E (ok y, g) w h = h
  Leaves-weaken P E (err y, g) w h = w g h

  -- A launch has a result: an error, and then nothing is left, or a backend whose driver runs and of
  -- which nothing is left once it is closed.
  pub IsSettled : Outcome → Type 0
  IsSettled (none, g) = ⊥
  IsSettled (some (err x), g) = IsReleased g
  IsSettled (some (ok x), g) = (g.process.running ≡ true) × IsReleased (close_gecko e g)

  running : (b : Bool) (d : Driver) → b ≡ true → Owned b d → d.running ≡ true
  unfolding Owned
  running true d b o = o.0
  running false d b o = cc

  Ended-IsSettled : (x : Outcome) → Ended IsDriven IsReleased x → IsSettled x
  unfolding Ended IsSettled
  Ended-IsSettled (none, g) h = h
  Ended-IsSettled (some (err y), g) h = h
  Ended-IsSettled (some (ok y), g) h =
      let t = h.0 in (running g.has_driver g.process h.1 t.owned, close_gecko-IsReleased e g t)

  module _ (k : ℕ)
      (expires : (acts : List Process.Act) → k ≤ length acts → is_some (e.host.expired acts) ≡ true)
      (fuel : ℕ) (enough : k < fuel) where
    launch-Ended :
        (x : Result DriverSpec × Gecko)
        → Leaves (λ _. IsIdle) IsIdle x
        → Ended IsMute IsTracked (launch_driver e fuel x)
    unfolding launch_driver Ended
    launch-Ended (err y, g) h = h.0
    launch-Ended (ok spec, g) h =
        driver_started-Ended e g (start_driver e.host fuel spec) h
          (start_driver-IsStarted e.host k expires fuel enough spec)

    start-Ended : (g : Gecko) → IsDark g → Ended IsMute IsTracked (start_gecko_driver e fuel g)
    unfolding start_gecko_driver
    start-Ended g h = launch-Ended (prepare_driver e g) ((prepare_driver-IsIdle e).holds g h)

    profiled-IsSettled :
        (x : Result (Unit {0}) × Gecko)
        → Leaves (λ _. IsDark) IsReleased x
        → IsSettled (profiled e fuel x)
    unfolding profiled IsSettled
    profiled-IsSettled (err y, g) h = h
    profiled-IsSettled (ok y, g) h =
        Ended-IsSettled
          (or_close e (enable_proxy_auth e)
            (or_close e (create_session e) (closing_start e (start_gecko_driver e fuel g))))
          (or_close-Ended IsMute IsDriven (enable_proxy_auth e)
            (or_close e (create_session e) (closing_start e (start_gecko_driver e fuel g)))
            (or_close-Ended IsMute IsMute (create_session e)
              (closing_start e (start_gecko_driver e fuel g))
              (closing_start-Ended (start_gecko_driver e fuel g) (start-Ended g h))
              (λ b m.
                Leaves-weaken IsMute IsMute (create_session e b) (λ c n. n.0.0)
                  ((create_session-IsMute e).holds b m)))
            (λ b m.
              Leaves-weaken IsDriven IsDriven (enable_proxy_auth e b) (λ c n. n.0)
                ((enable-IsDriven e).holds b m)))

    profile-IsDark :
        (r : Result String) → Leaves (λ _. IsDark) IsReleased (profile_made e r (new_gecko e))
    unfolding profile_made Owned
    profile-IsDark (err x) = record {
      process = record { stopped = refl; closed = refl };
      dirs = refl;
      displays = refl;
      sockets = refl;
    }
    profile-IsDark (ok dir) = (
      (
        record {
          owned = record { stopped = refl; closed = refl };
          dirs = refl;
          displays = refl;
          sockets = refl;
        },
        (refl, refl),
      ),
      refl,
    )

    new-IsReleased : IsReleased (new_gecko e)
    new-IsReleased = record {
      process = record { stopped = refl; closed = refl };
      dirs = refl;
      displays = refl;
      sockets = refl;
    }

    -- NewGeckoDriver leaks nothing, whichever of its steps fails: when the context of the start ends
    -- after k probes and waits of the driver, it returns, with any fuel above k. With an error, no
    -- driver process, no open log file, no directory, no Xvfb and no BiDi socket of it is left.
    -- Without one the driver runs, and Close leaves none of these.
    pub new_gecko_driver-IsSettled : IsSettled (new_gecko_driver e fuel)
    unfolding new_gecko_driver prepare_profile_dir IsSettled
    new_gecko_driver-IsSettled = if_both IsSettled (is_blank e.config.driver_path) new-IsReleased (
        if_both IsSettled (is_blank e.config.browser_path) new-IsReleased (
          profiled-IsSettled (prepare_profile_dir e (new_gecko e))
            (profile-IsDark (e.create_transient_dir "flaresolverr-go-geckoprofile-*"))))
