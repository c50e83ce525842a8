-- ===== src/Protocol/Process/Life.antt =====
-- server/browser/w3c/driver.go: no failed start leaves a process behind.
use flaresolverr_go.Prelude.{
  ℕ, zero, suc, ◌+◌, ◌≤◌, ◌<◌, is_some, Bool-cases, inl, inr, leb, String, Bool, true, false, not,
  ◌&&◌, Option, none, some, List, ◌∷◌, ◌==◌, ◌≡◌, refl, ap, length, if_cases, if_both, arith, Error,
  Result, ok, err,
}
use flaresolverr_go.Protocol.Process.{
  Act, Driver, Host, DriverSpec, grace, terminate, unless_expired, probed, close_log, stop,
  after_grace, after_term, killed, wait_ready, once_ready, started, logged, start_driver, did,
  next_wait, new_driver, driver_poll_initial, probe, wait,
}

-- Neither a process nor an open file is left.
pub record IsGone (d : Driver) : Type 0 where
  pub stopped : d.running ≡ false
  pub closed : d.log_open ≡ false

-- A driver without a command has no process.
abbrev pub IsSound : Driver → Type 0
IsSound d = d.has_command ≡ false → d.running ≡ false

module _ (h : Host) where
  pub stop-IsGone : (d : Driver) → IsSound d → IsGone (stop h d)
  unfolding stop after_grace after_term killed close_log
  stop-IsGone d s =
      if_cases (λ e. IsGone (close_log e)) d.has_command
        (λ _.
          if_both (λ e. IsGone (close_log e)) (h.exits d.acts)
            (record { stopped = refl; closed = refl })
            (if_both (λ e. IsGone (close_log e)) (h.exits (terminate ∷ grace 3000 ∷ d.acts))
              (record { stopped = refl; closed = refl })
              (record { stopped = refl; closed = refl })))
        (λ c. record { stopped = s c; closed = refl })

  -- A start that failed leaves nothing, and one that succeeded a process that runs.
  unfoldable pub IsStarted : Option (Result (Unit {0})) × Driver → Type 0
  IsStarted (none, d) = ⊥
  IsStarted (some (ok x), d) = (d.running ≡ true) × (d.has_command ≡ true)
  IsStarted (some (err e), d) = IsGone d

  -- A wait for the driver has a result, and its process still runs.
  Waited : Option (Result (Unit {0})) × Driver → Type 0
  Waited (none, d) = ⊥
  Waited (some r, d) = (d.running ≡ true) × (d.has_command ≡ true)

  module _ (k : ℕ)
      (expires : (acts : List Act) → k ≤ length acts → is_some (h.expired acts) ≡ true) where
    unless_expired-Waited :
        (next : Driver → Option (Result (Unit {0})) × Driver) (name : String) (n : ℕ) (d : Driver)
        (o : Option Error)
        → (d.running ≡ true) × (d.has_command ≡ true)
        → (o ≡ none → Waited (next (did (wait n) d)))
        → Waited (unless_expired h next name n d o)
    unfolding unless_expired Waited
    unless_expired-Waited next name n d (some e) r w = r
    unless_expired-Waited next name n d none r w = w refl

    probed-Waited :
        (next : Driver → Option (Result (Unit {0})) × Driver) (name : String) (n : ℕ) (d : Driver)
        (answer : Result (Unit {0}))
        → (d.running ≡ true) × (d.has_command ≡ true)
        → (h.expired d.acts ≡ none → Waited (next (did (wait n) d)))
        → Waited (probed h next name n d answer)
    unfolding probed Waited
    probed-Waited next name n d (ok x) r w = r
    probed-Waited next name n d (err e) r w =
        unless_expired-Waited next name n d (h.expired d.acts) r w

    more :
        (fuel : ℕ) (acts : List Act)
        → h.expired (probe ∷ acts) ≡ none
        → k < suc fuel + length acts
        → (1 ≤ fuel) × (k < fuel + suc (suc (length acts)))
    more fuel acts e l = elim (Bool-cases (leb k (length acts + 1))) [
      | inl b ↦
          let s = expires (probe ∷ acts) (ground arith) in
          let c : is_some (h.expired (probe ∷ acts)) ≡ false = ap is_some e in cc
      | inr b ↦ (ground arith, ground arith)
    ]

    ready-Waited :
        (fuel : ℕ) (name : String) (n : ℕ) (d : Driver)
        → (d.running ≡ true) × (d.has_command ≡ true)
        → 1 ≤ fuel
        → k < fuel + length d.acts
        → Waited (wait_ready h fuel name n d)
    unfolding wait_ready
    ready-Waited zero name n d r l g = ground arith
    ready-Waited (suc fuel) name n d r l g =
        probed-Waited (wait_ready h fuel name (next_wait h n)) name n (did probe d) (h.probe d.acts)
          r
          (λ e.
            let m = more fuel d.acts e g in
            ready-Waited fuel name (next_wait h n) (did (wait n) (did probe d)) r m.0 m.1)

    once_ready-IsStarted :
        (x : Option (Result (Unit {0})) × Driver) → Waited x → IsStarted (once_ready h x)
    unfolding once_ready Waited IsStarted
    once_ready-IsStarted (none, d) w = w
    once_ready-IsStarted (some (ok x), d) w = w
    once_ready-IsStarted (some (err e), d) w = stop-IsGone d (λ c. cc)

    module _ (fuel : ℕ) (enough : k < fuel) where
      started-IsStarted :
          (spec : DriverSpec) (log : Bool) (answer : Result (Unit {0}))
          → IsStarted (started h fuel spec (new_driver h log) answer)
      unfolding started IsStarted close_log
      started-IsStarted spec log (err e) = record { stopped = refl; closed = refl }
      started-IsStarted spec log (ok x) =
          once_ready-IsStarted
            (wait_ready h fuel spec.name driver_poll_initial
              (record (new_driver h log) { running = true; has_command = true }))
            (ready-Waited fuel spec.name driver_poll_initial
              (record (new_driver h log) { running = true; has_command = true }) (refl, refl)
              (ground arith) (ground arith))

      logged-IsStarted :
          (spec : DriverSpec) (answer : Result (Unit {0})) → IsStarted (logged h fuel spec answer)
      unfolding logged IsStarted
      logged-IsStarted spec (err e) = record { stopped = refl; closed = refl }
      logged-IsStarted spec (ok x) = started-IsStarted spec true (h.start spec)

      -- When the context of a start ends after k probes and waits, StartDriver returns, with any
      -- fuel above k: without an error, and then the process runs, or with one, and then no process
      -- and no open log file is left, whichever step failed and however the process reacts to being
      -- stopped.
      pub start_driver-IsStarted : (spec : DriverSpec) → IsStarted (start_driver h fuel spec)
      unfolding start_driver
      start_driver-IsStarted spec =
          if_both IsStarted (not (spec.log_path == "") && spec.redirect_output)
            (logged-IsStarted spec h.create_log) (started-IsStarted spec false (h.start spec))
