-- ===== src/Service.antt =====
-- server/service.go: the commands of /v1 on the state of the service. Data and the parameters of
-- the model are in Types, a resolution in Resolve; logging is left out.
pub mod Types
pub mod Format
pub mod Resolve
pub mod Commands
pub mod Replies
pub mod Upkeep
use flaresolverr_go.Prelude.{
  ℕ, String, Bool, true, false, not, ◌&&◌, ◌||◌, Option, none, some, [], ◌∷◌, ◌==◌, ◌<>◌,
  if◌then◌else◌, failure, error_text, Error, Result, ok, err,
}
use flaresolverr_go.Prelude.Int.{ℤ, pos, ltb_ℤ}
use flaresolverr_go.Config.{Config, Proxy, prepare_config}
use flaresolverr_go.Settings.{Url, has_scheme}
use flaresolverr_go.Session.Store.{Store, session_closed, apply_config as store_config}
use flaresolverr_go.Session.Calls.{create, destroy, destroy_all, ids}
use flaresolverr_go.Service.Types.{
  Request, Response, Service, World, Method, http_get, http_post, Solution, empty_response,
  proxy_or,
}
use flaresolverr_go.Service.Resolve.{resolve_challenge, store_user_agent_from_browser}

abbrev pub Reply : Type 0
Reply = Result Response × Service

abbrev create_reply : Store → ℕ × Bool → Response
create_reply m (r, fresh) = record empty_response {
  status = "ok";
  message = if fresh then "Session created successfully." else "Session already exists.";
  session = (m.heap r).id;
}

after_create : World → Service → Result (ℕ × Bool) × Store → Reply
after_create w s (err e, m) = (err e, record s { store = m })
after_create w s (ok (r, false), m) = (ok (create_reply m (r, false)), record s { store = m })
after_create w s (ok (r, true), m) = (
  ok (create_reply m (r, true)),
  store_user_agent_from_browser w (m.heap r).browser (record s { store = m }),
)

unfoldable pub cmd_sessions_create : World → Request → Service → Reply
unfolding after_create
cmd_sessions_create w req s = after_create w s (
    create w.factory (some s.user_agent) w.random req.session
      (proxy_or req.proxy s.cfg.default_proxy) false w.now s.store)

unfoldable pub cmd_sessions_list : Service → Response
cmd_sessions_list s = record empty_response { status = "ok"; sessions = some (ids s.store) }

after_destroy : Service → Bool × Store → Reply
after_destroy s (false, m) = (err session_closed, record s { store = m })
after_destroy s (true, m) = (
  ok (record empty_response { status = "ok"; message = "The session has been removed." }),
  record s { store = m },
)

unfoldable pub cmd_sessions_destroy : Request → Service → Reply
unfolding after_destroy
cmd_sessions_destroy req s = after_destroy s (destroy req.session s.store)

after_resolve : Result (Option Solution × String) × Service → Reply
after_resolve (err e, s) = (err e, s)
after_resolve (ok (solution, message), s) =
    (ok (record empty_response { status = "ok"; message = message; solution = solution }), s)

-- An absolute http or https URL.
abbrev pub is_web_url : Option Url → Bool
is_web_url u = has_scheme "http" u || has_scheme "https" u

unfoldable pub post_data_error : Method → String → Option Error
post_data_error http_get text =
    if text == "" then none else some (failure "Cannot use 'postBody' when sending a GET request.")
post_data_error http_post text =
    if text == ""
    then some (failure "Request parameter 'postData' is mandatory in 'request.post' command.")
    else none

-- The tests in front of a resolution: the error of the first that fails.
unfoldable pub request_error : World → Request → Method → Option Error
unfolding post_data_error
request_error w req method =
    if req.url == ""
    then some (failure ("Request parameter 'url' is mandatory in '" <> (req.cmd <> "' command.")))
    else if not (is_web_url (w.parse_url req.url))
    then some (failure "Request parameter 'url' must be an absolute http or https URL.")
    else post_data_error method req.post_data

checked : World → Request → Method → Service → Option Error → Reply
unfolding after_resolve
checked w req method s (some e) = (err e, s)
checked w req method s none = after_resolve (resolve_challenge w req method s)

unfoldable pub cmd_request : World → Request → Method → Service → Reply
unfolding checked request_error
cmd_request w req method s = checked w req method s (request_error w req method)

abbrev with_timeout : Request → Request
with_timeout req = record req {
  max_timeout = if ltb_ℤ req.max_timeout (pos 1) then pos 60000 else req.max_timeout;
}

dispatch : World → Request → Service → Reply
dispatch w req s =
    if req.cmd == "sessions.create"
    then cmd_sessions_create w req s
    else if req.cmd == "sessions.list"
    then (ok (cmd_sessions_list s), s)
    else if req.cmd == "sessions.destroy"
    then cmd_sessions_destroy req s
    else if req.cmd == "request.get"
    then cmd_request w req http_get s
    else if req.cmd == "request.post"
    then cmd_request w req http_post s
    else (err (failure ("Request parameter 'cmd' = '" <> (req.cmd <> "' is invalid."))), s)

unfoldable pub handle_v1 : World → Option Request → Service → Reply
unfolding dispatch
handle_v1 w none s = (err (failure "Request body is mandatory."), s)
handle_v1 w (some req) s =
    if req.cmd == ""
    then (err (failure "Request parameter 'cmd' is mandatory."), s)
    else dispatch w (with_timeout req) s

-- The response and the HTTP status.
abbrev responded : Result Response → Response × ℕ
responded (ok res) = (res, 200)
responded (err e) =
    (record empty_response { status = "error"; message = "Error: " <> error_text e }, 500)

abbrev stamped : World → Service → Response → Response
stamped w s res = record res {
  start_timestamp = w.start_ms;
  end_timestamp = w.end_ms;
  version = s.cfg.version;
}

unfoldable pub controller_v1 : World → Option Request → Service → Response × ℕ × Service
controller_v1 w req s =
    let (reply, s') = handle_v1 w req s in
    let (res, status) = responded reply in (stamped w s' res, status, s')

-- ApplyConfig: the running sessions are closed, and the user agent is forgotten.
unfoldable pub apply_config : Config → Service → Service
apply_config given s =
    let cfg = prepare_config given in
    record s { cfg = cfg; store = destroy_all (store_config cfg s.store); user_agent = "" }

unfoldable pub close : Service → Service
close s = record s { store = destroy_all s.store }
