-- ===== src/Server/Panics.antt =====
-- errorPlugin of server/server.go and statusWriter of server/plugins.go. A handler is what it wrote
-- and how it ended.
use flaresolverr_go.Prelude.{
  ℕ, suc, ◌≤◌, String, ◌≡◌, refl, arith, false, All, Option, none, some, List, [], ◌∷◌, eqb,
  if◌then◌else◌,
}

-- statusWriter: `status` is 0 until a status was written. `headers` are the calls of WriteHeader
-- that reached the connection, the last one first, and `bodies` counts the calls of Write.
pub record StatusWriter : Type 0 where
  pub status : ℕ
  pub headers : List ℕ
  pub bodies : ℕ

unfoldable pub write_header : ℕ → StatusWriter → StatusWriter
write_header code w = record w { status = code; headers = code ∷ w.headers }

unfoldable pub write : StatusWriter → StatusWriter
write w = record w { status = if eqb w.status 0 then 200 else w.status; bodies = suc w.bodies }

-- http.ErrAbortHandler, or any other value.
pub data Panic : Type 0 where
  abort_handler : Panic
  other : String → Panic

pub data Call : Type 0 where
  header : ℕ → Call
  body : Call

unfoldable pub perform : List Call → StatusWriter → StatusWriter
unfolding write_header write
perform [] w = w
perform (header code ∷ calls) w = perform calls (write_header code w)
perform (body ∷ calls) w = perform calls (write w)

-- writeJSON: a header and a body.
unfoldable pub write_json : ℕ → StatusWriter → StatusWriter
unfolding write_header write
write_json code w = write (write_header code w)

-- The deferred function of errorPlugin, once the handler has ended.
unfoldable pub recovered : Option Panic → StatusWriter → Option Panic × StatusWriter
unfolding write_json
recovered none w = (none, w)
recovered (some abort_handler) w = (some abort_handler, w)
recovered (some (other text)) w =
    if eqb w.status 0 then (none, write_json 500 w) else (some abort_handler, w)

unfoldable pub error_plugin : List Call → Option Panic → StatusWriter → Option Panic × StatusWriter
unfolding perform recovered
error_plugin calls panic w = recovered panic (perform calls w)

-- The status of a call is one that HTTP has, which WriteHeader asks for.
abbrev pub IsStatus : Call → Type 0
IsStatus (header code) = 1 ≤ code
IsStatus body = Unit

abbrev pub fresh_writer : StatusWriter
fresh_writer = record { status = 0; headers = []; bodies = 0 }

-- What the plugin makes of a handler. Without a panic, and with the abort of net/http, nothing is
-- changed. Any other panic of a handler that wrote nothing becomes one answer of status 500; after
-- a begun answer it becomes the abort, and the answer is left as it was.
pub IsContained : List Call → Option Panic → Option Panic × StatusWriter → Type 0
IsContained calls none out = out ≡ (none, perform calls fresh_writer)
IsContained calls (some abort_handler) out = out ≡ (some abort_handler, perform calls fresh_writer)
IsContained [] (some (other text)) out =
    (out.0 ≡ none) × (out.1.headers ≡ 500 ∷ []) × (out.1.bodies ≡ 1)
IsContained (call ∷ calls) (some (other text)) out =
    out ≡ (some abort_handler, perform (call ∷ calls) fresh_writer)

perform-status :
    (calls : List Call) (w : StatusWriter)
    → All IsStatus calls
    → 1 ≤ w.status
    → eqb (perform calls w).status 0 ≡ false
unfolding perform write_header write
perform-status [] w a h = ground arith
perform-status (header code ∷ calls) w a h = perform-status calls _ a.1 a.0
perform-status (body ∷ calls) w a h = perform-status calls _ a.1 (ground arith)

written :
    (call : Call) (calls : List Call)
    → IsStatus call
    → All IsStatus calls
    → eqb (perform (call ∷ calls) fresh_writer).status 0 ≡ false
unfolding perform write_header write
written (header code) calls h a = perform-status calls _ a h
written body calls h a = perform-status calls _ a (ground arith)

-- Whatever a handler writes, with statuses that HTTP has, and however it ends: a handler that does
-- not panic, or aborts, is left as it is. Any other panic is answered with one error of status 500,
-- and goes no further, where nothing was written; where something was, nothing is added to it and
-- the connection is aborted.
pub error_plugin-IsContained :
    (calls : List Call) (panic : Option Panic)
    → All IsStatus calls
    → IsContained calls panic (error_plugin calls panic fresh_writer)
unfolding error_plugin recovered write_json write write_header perform IsContained
error_plugin-IsContained calls none a = refl
error_plugin-IsContained calls (some abort_handler) a = refl
error_plugin-IsContained [] (some (other text)) a = (refl, refl, refl)
error_plugin-IsContained (call ∷ calls) (some (other text)) a = rw (written call calls a.0 a.1) refl
