-- ===== src/Lib.antt =====
-- flaresolverr-go is an HTTP proxy that solves browser challenges: POST /v1 takes a request, drives
-- a real browser to its URL, and answers with the page, its cookies and the user agent. The parts,
-- with their files in the repository and here:
--
--   Config     server/config.go            defaults, init.yaml, environment (Config/Load), what is
--              saved (Config/Save) and its merge into the tree of an init.yaml (Config/Yaml)
--   Session    server/sessions.go          the store of browser sessions
--   Settings   server/settings.go          the payload of the settings page, and its guard
--   Service    server/service.go           the commands of /v1 (data of server/types.go in Types)
--   Metrics    server/metrics.go           the Prometheus exporter
--   Server     server/server.go            routes, settings API, shutdown; Server/Panics is
--              server/plugins.go           errorPlugin over the status writer
--   Pipeline   server/browser/resolve.go   ResolvePage over the Page interface of a backend
--   Challenge  server/browser/{webdriver,chromedp,geckodriver}/browser.go: how a backend recognizes
--              and solves a challenge; Challenge/Targets is server/browser/common.go, the controls
--              of a page, Challenge/Clicks clicks them, Challenge/Solve has the loops
--   Factory    server/default_browser_factory.go, server/browser_path.go, and the proxy checks of
--              server/browser/common.go: which backend is launched, and with which proxy
--   Drivers    server/driver_manager.go, server/geckodriver_manager.go: finding, downloading and
--              installing chromedriver (Drivers/Chrome) and geckodriver (Drivers/Gecko)
--   Protocol   server/browser/w3c/{session,elements}.go: commands of the WebDriver protocol and the
--              search through shadow roots; Protocol/Process is server/browser/w3c/driver.go
--   Firefox    server/browser/geckodriver/browser.go: NewGeckoDriver and Close (Firefox/Launch)
--   Browser    server/browser/common.go       the environment of a browser process
--   Prelude    texts as Go's strings package treats them, int and int64 over the native numbers,
--              results with errors, association lists
--   Tests      runs at concrete inputs
--
-- A Go function is a function here, named in snake_case (resolveChallenge is resolve_challenge).
-- State is passed explicitly: a method takes the record of its receiver and returns the new one.
-- An error is a value of Prelude.Results.Error, which keeps context.DeadlineExceeded apart.
--
-- How the parts interact. Server.routes gives a request to a handler; /v1 calls
-- Service.controller_v1, which dispatches the command; a request with a session calls
-- Session.Calls.get, one without launches a browser of its own and closes it. Saving settings runs
-- Settings.guard_state_changing_request and to_config, writes the file, and applies the
-- configuration to the service, which drops all sessions, and to the exporter. A browser is a
-- number here; what it answers is an argument (World), and inside it Pipeline runs.
--
-- The session store is modelled twice. Session/Steps has goroutines: a program counter stands
-- between two regions of code that run under one lock, a step runs one region of any goroutine, and
-- waiting for a channel or a mutex is a step that is not enabled. Session/Calls composes the same
-- regions to each method run alone, which the service uses. Session/Moves classifies the steps,
-- Session/Effects, Sound and Kept say what each class keeps, Session/Invariant joins them.
--
-- The driver managers change a disk and two caches (Drivers.World) and call the network, other
-- programs and the archive formats, which are the record Drivers.Outside. Code that waits for a
-- lock first runs Outside.meanwhile, what other goroutines do. Factory takes the managers' answers
-- as arguments. Firefox starts the driver by Protocol/Process, and counts what a backend has made
-- beside the fields that stand for it. Prelude.Acts is the monad of such code, Prelude.Acts.Triples
-- its Hoare triples; Pipeline uses the same.
--
-- Bounds. Settings and request fields of Go's int are unbounded integers; durations keep the
-- wrap-around of int64 (Prelude.Int.wrap64). The readiness loop of Pipeline has 50 rounds of fuel:
-- each round sleeps 200 ms, so its deadline of 10 s has passed after them. Digits of a timeout are
-- printed with fuel 19, the digits of an int64. The loops of a solver have fuel, and the result
-- `ok none` when it is used up: they end with the context of the request, which every call sees. So
-- does the wait for a driver to get ready (Protocol.Process.wait_ready), with its deadline.
-- Sizes in a page are a record of operations (Challenge.Targets.Floats), of which nothing is assumed.
--
-- Not modelled: of the browser backends, the launch of Chrome, the preferences of Firefox, cookies,
-- screenshots and page calls; Xvfb and the WebSocket protocols; the scripts that run in a page; the
-- text of YAML with its comments and the writing of files, the JSON codec, logging, listening. The
-- JSON and YAML decoders, net/url, mime, strconv.Atoi, the file system and factory.New are arguments
-- of the definitions that use them; the theorems on what the next start loads assume that the YAML
-- decoder reads a mapping of the right types (Config.Yaml.Holds.Decodes).
pub mod Prelude
pub mod Config
pub mod Session
pub mod Settings
pub mod Service
pub mod Factory
pub mod Drivers
pub mod Metrics
pub mod Server
pub mod Pipeline
pub mod Challenge
pub mod Protocol
pub mod Browser
pub mod Firefox
pub mod Tests
