-- ===== src/Protocol/Process.antt =====
-- server/browser/w3c/driver.go: the life of a driver process. The operating system and the clock are
-- arguments.
pub mod Life
use flaresolverr_go.Prelude.{
  ℕ, zero, suc, ◌*◌, String, Bool, true, false, not, ◌&&◌, ◌||◌, Option, none, some, List, [], ◌∷◌,
  ◌==◌, ◌<>◌, leb, if◌then◌else◌, Error, wrap, Result, ok, err,
}

-- What is done to a process.
pub data Act : Type 0 where
  -- GET /status
  probe : Act
  -- A wait of these milliseconds between two probes.
  wait : ℕ → Act
  -- The wait of Stop for the end of the process.
  grace : ℕ → Act
  terminate : Act
  kill : Act

-- A driver: whether its process runs and has been waited for, and whether its log file is open.
pub record Driver : Type 0 where
  pub running : Bool
  -- d.cmd != nil
  pub has_command : Bool
  pub log_open : Bool
  pub acts : List Act

pub record DriverSpec : Type 0 where
  pub name : String
  pub path : String
  pub args : List String
  pub env : List String
  pub log_path : String
  pub redirect_output : Bool

-- Answers that depend on what was done before. `exits` says whether the process ends within a wait.
pub record Host : Type 0 where
  pub create_log : Result (Unit {0})
  pub start : DriverSpec → Result (Unit {0})
  pub probe : List Act → Result (Unit {0})
  -- readyCtx.Done() while waiting: its error.
  pub expired : List Act → Option Error
  pub exits : List Act → Bool

abbrev pub driver_poll_initial : ℕ
driver_poll_initial = 50

abbrev pub driver_poll_max : ℕ
driver_poll_max = 500

abbrev did : Act → Driver → Driver
did a d = record d { acts = a ∷ d.acts }

unfoldable pub close_log : Driver → Driver
close_log d = record d { log_open = false }

abbrev exited : Driver → Driver
exited d = record d { running = false; has_command = false }

module _ (h : Host) where
  -- The last resort: a killed process ends.
  killed : Driver → Driver
  killed d = exited (did kill d)

  after_term : Driver → Driver
  unfolding killed
  after_term d = let e = did (grace 2000) d in if h.exits d.acts then exited e else killed e

  after_grace : Driver → Driver
  unfolding after_term
  after_grace d =
      let e = did (grace 3000) d in
      if h.exits d.acts then exited e else after_term (did terminate e)

  -- Stop: Wait, SIGTERM, SIGKILL, and the log file in any case.
  unfoldable pub stop : Driver → Driver
  unfolding after_grace close_log
  stop d = close_log (if d.has_command then after_grace d else d)

  -- The next wait: twice as long, but at most driverPollMax.
  unfoldable pub next_wait : ℕ → ℕ
  next_wait n = if leb driver_poll_max (n * 2) then driver_poll_max else n * 2

  -- select { case <-readyCtx.Done(): ...; case <-time.After(waitFor): }
  unless_expired :
      (Driver → Option (Result (Unit {0})) × Driver)
      → String
      → ℕ
      → Driver
      → Option Error
      → Option (Result (Unit {0})) × Driver
  unless_expired next name n d (some e) =
      (some (err (wrap (name <> " did not become ready: ") e)), d)
  unless_expired next name n d none = next (did (wait n) d)

  probed :
      (Driver → Option (Result (Unit {0})) × Driver)
      → String
      → ℕ
      → Driver
      → Result (Unit {0})
      → Option (Result (Unit {0})) × Driver
  unfolding unless_expired
  probed next name n d (ok x) = (some (ok tt), d)
  probed next name n d (err e) = unless_expired next name n d (h.expired d.acts)

  -- The loop of waitReady; none when its fuel is used up.
  wait_ready : ℕ → String → ℕ → Driver → Option (Result (Unit {0})) × Driver
  unfolding next_wait probed
  wait_ready zero name n d = (none, d)
  wait_ready (suc fuel) name n d =
      probed (wait_ready fuel name (next_wait n)) name n (did probe d) (h.probe d.acts)

  -- The rest of StartDriver, when waitReady has ended.
  once_ready : Option (Result (Unit {0})) × Driver → Option (Result (Unit {0})) × Driver
  unfolding stop
  once_ready (none, d) = (none, d)
  once_ready (some (ok x), d) = (some (ok tt), d)
  once_ready (some (err e), d) = (some (err e), stop d)

  started : ℕ → DriverSpec → Driver → Result (Unit {0}) → Option (Result (Unit {0})) × Driver
  unfolding wait_ready once_ready close_log
  started fuel spec d (err e) = (some (err (wrap ("start " <> (spec.name <> ": ")) e)), close_log d)
  started fuel spec d (ok x) = once_ready (
      wait_ready fuel spec.name driver_poll_initial
        (record d { running = true; has_command = true }))

  abbrev new_driver : Bool → Driver
  new_driver log = record { running = false; has_command = false; log_open = log; acts = [] }

  logged : ℕ → DriverSpec → Result (Unit {0}) → Option (Result (Unit {0})) × Driver
  unfolding started
  logged fuel spec (err e) =
      (some (err (wrap ("create " <> (spec.name <> " log: ")) e)), new_driver false)
  logged fuel spec (ok x) = started fuel spec (new_driver true) (h.start spec)

  unfoldable pub start_driver : ℕ → DriverSpec → Option (Result (Unit {0})) × Driver
  unfolding logged
  start_driver fuel spec =
      if not (spec.log_path == "") && spec.redirect_output
      then logged fuel spec h.create_log
      else started fuel spec (new_driver false) (h.start spec)
