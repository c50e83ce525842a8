-- ===== src/Firefox/Launch/Kept/Driven.antt =====
-- server/browser/geckodriver/browser.go: the steps of a launch from the driver's start on.
use flaresolverr_go.Prelude.{
  suc, String, Bool, true, false, not, Option, none, some, if◌then◌else◌, ◌==◌, ◌≡◌, refl, if_both,
  arith, Result, ok, err, Error, failure, trim,
}
use flaresolverr_go.Prelude.Acts.{Act, after, ◌>>◌, skip, demand}
use flaresolverr_go.Prelude.Acts.Triples.{Leaves, Triple, bind, choice}
use flaresolverr_go.Protocol.Process.{Driver}
use flaresolverr_go.Protocol.Process.Life.{IsStarted}
use flaresolverr_go.Firefox.{Gecko, Surroundings, Outcome, driver_started}
use flaresolverr_go.Firefox.Launch.{
  build_proxy_capability, needs_bidi, firefox_args, session_made, set_web_socket_url,
  create_session, auth_installed, dialled, enable_proxy_auth,
}
use flaresolverr_go.Firefox.Launch.Kept.{Owned, IsTracked, gone-Owned, IsIdle}

-- A backend with a driver, without and with its socket.
abbrev pub IsDriven : Gecko → Type 0
IsDriven g = IsTracked g × (g.has_driver ≡ true)

abbrev pub IsMute : Gecko → Type 0
IsMute g = IsDriven g × (g.has_bidi ≡ false)

-- P of a backend without an error, and Q of one with an error.
unfoldable pub Ended : (Gecko → Type 0) → (Gecko → Type 0) → Outcome → Type 0
Ended P Q (none, g) = ⊥
Ended P Q (some (ok x), g) = P g
Ended P Q (some (err x), g) = Q g

module _ (e : Surroundings) where
  pub driver_started-Ended :
      (g : Gecko) (x : Option (Result (Unit {0})) × Driver)
      → IsIdle g
      → IsStarted e.host x
      → Ended IsMute IsTracked (driver_started e g x)
  unfolding driver_started Ended IsStarted Owned
  driver_started-Ended g (none, d) h s = s
  driver_started-Ended g (some (err x), d) h s =
      let t = h.0 in
      let b = h.1.0 in
      record {
        owned = gone-Owned g.has_driver d b s;
        dirs = t.dirs;
        displays = t.displays;
        sockets = t.sockets;
      }
  driver_started-Ended g (some (ok x), d) h s =
      let t = h.0 in
      (
        (record { owned = s; dirs = t.dirs; displays = t.displays; sockets = t.sockets }, refl),
        h.1.1,
      )

  demanded-IsMute : (b : Bool) (x : Error) → Triple IsMute (demand b x) (λ _. IsMute) IsMute
  demanded-IsMute true x = record { holds = λ g h. h }
  demanded-IsMute false x = record { holds = λ g h. h }

  set_web_socket_url-IsMute :
      (url : String) → Triple IsMute (set_web_socket_url e url) (λ _. IsMute) IsMute
  unfolding set_web_socket_url
  set_web_socket_url-IsMute url = record {
    holds = λ g h.
        let t = h.0.0 in
        (demanded-IsMute (not (url == "")) (
            failure
              "geckodriver did not return a webSocketUrl, so proxy credentials cannot be supplied")).holds
          (record g { web_socket_url = url })
          (
            (
              record { owned = t.owned; dirs = t.dirs; displays = t.displays; sockets = t.sockets },
              h.0.1,
            ),
            h.1,
          );
  }

  session_made-IsMute :
      (needs : Bool) (r : Result (String × (String × String)))
      → Triple IsMute (session_made e needs r) (λ _. IsMute) IsMute
  unfolding session_made
  session_made-IsMute needs (err x) = record { holds = λ g h. h }
  session_made-IsMute needs (ok (top, (id, url))) =
      let session = if trim top == "" then trim id else trim top in
      bind {Q = λ _. IsMute}
        {m = demand (not (session == "")) (failure "geckodriver session id missing")
          >> (λ g. (ok tt, record g { session_id = session }))}
        (bind {Q = λ _. IsMute}
          {m = demand (not (session == "")) (failure "geckodriver session id missing")}
          (demanded-IsMute (not (session == "")) (failure "geckodriver session id missing"))
          (λ _. record {
            holds = λ g h.
                let t = h.0.0 in
                (
                  (
                    record {
                      owned = t.owned;
                      dirs = t.dirs;
                      displays = t.displays;
                      sockets = t.sockets;
                    },
                    h.0.1,
                  ),
                  h.1,
                );
          }))
        (λ _.
          choice needs {m = set_web_socket_url e (trim url)} {k = skip}
            (set_web_socket_url-IsMute (trim url)) (record { holds = λ g h. h }))

  after-IsMute :
      {A : Type 0} (r : Result A) (f : A → Act Gecko (Unit {0})) (g : Gecko)
      → IsMute g
      → ((a : A) → Triple IsMute (f a) (λ _. IsMute) IsMute)
      → Leaves (λ _. IsMute) IsMute (after (r, g) f)
  after-IsMute (ok a) f g h k = (k a).holds g h
  after-IsMute (err x) f g h k = h

  pub create_session-IsMute : Triple IsMute (create_session e) (λ _. IsMute) IsMute
  unfolding create_session
  create_session-IsMute = record {
    holds = λ g h.
        after-IsMute (build_proxy_capability e e.proxy)
          (λ proxy.
            session_made e (needs_bidi e e.proxy)
              (e.post_session (firefox_args e g) proxy (needs_bidi e e.proxy)))
          g h
          (λ proxy.
            session_made-IsMute (needs_bidi e e.proxy)
              (e.post_session (firefox_args e g) proxy (needs_bidi e e.proxy)));
  }

  auth_installed-IsDriven :
      (r : Result (Unit {0})) (g : Gecko)
      → IsMute g
      → Leaves (λ _. IsDriven) IsDriven (auth_installed e r (record g { sockets = suc g.sockets }))
  unfolding auth_installed
  auth_installed-IsDriven (err x) g h =
      let t = h.0.0 in
      (
        record {
          owned = t.owned;
          dirs = t.dirs;
          displays = t.displays;
          sockets = let d = t.sockets in ground arith;
        },
        h.0.1,
      )
  auth_installed-IsDriven (ok x) g h =
      let t = h.0.0 in
      (
        record {
          owned = t.owned;
          dirs = t.dirs;
          displays = t.displays;
          sockets = let d = t.sockets in let b = h.1 in ground arith;
        },
        h.0.1,
      )

  dialled-IsDriven : (r : Result (Unit {0})) → Triple IsMute (dialled e r) (λ _. IsDriven) IsDriven
  unfolding dialled
  dialled-IsDriven (err x) = record { holds = λ g h. h.0 }
  dialled-IsDriven (ok x) = record {
    holds = λ g h. auth_installed-IsDriven (e.install_proxy_auth e.proxy) g h;
  }

  pub enable-IsDriven : Triple IsMute (enable_proxy_auth e) (λ _. IsDriven) IsDriven
  unfolding enable_proxy_auth
  enable-IsDriven = record {
    holds = λ g h.
        if_both (Leaves (λ _. IsDriven) IsDriven) (g.web_socket_url == "") h.0
          ((dialled-IsDriven (e.dial g.web_socket_url)).holds g h);
  }
