-- ===== src/Service/Commands.antt =====
-- What every command of /v1 has, its dispatch has: handleV1 of server/service.go.
use flaresolverr_go.Prelude.{
  Bool, true, false, Option, none, some, ◌==◌, Error, ok, err, if◌then◌else◌,
}
use flaresolverr_go.Service.Types.{Request, Service, World, Method, http_get, http_post}
use flaresolverr_go.Service.{
  Reply, cmd_sessions_create, cmd_sessions_list, cmd_sessions_destroy, cmd_request, with_timeout,
  dispatch, handle_v1,
}

module _ (P : Reply → Type 0) where
  at_if : (b : Bool) (p q : Reply) → P p → P q → P (if b then p else q)
  at_if true p q k l = k
  at_if false p q k l = l

  module _ (w : World) (s : Service) (at_error : (e : Error) → P (err e, s))
      (at_create : (req : Request) → P (cmd_sessions_create w req s))
      (at_list : P (ok (cmd_sessions_list s), s))
      (at_destroy : (req : Request) → P (cmd_sessions_destroy req s))
      (at_request : (req : Request) (method : Method) → P (cmd_request w req method s)) where
    at_dispatch : (req : Request) → P (dispatch w req s)
    unfolding dispatch
    at_dispatch req = at_if (req.cmd == "sessions.create") _ _ (at_create req) (
        at_if (req.cmd == "sessions.list") _ _ at_list (
          at_if (req.cmd == "sessions.destroy") _ _ (at_destroy req) (
            at_if (req.cmd == "request.get") _ _ (at_request req http_get)
              (at_if (req.cmd == "request.post") _ _ (at_request req http_post) (at_error _)))))

    pub at_command : (req : Option Request) → P (handle_v1 w req s)
    unfolding handle_v1
    at_command none = at_error _
    at_command (some req) = at_if (req.cmd == "") _ _ (at_error _) (at_dispatch (with_timeout req))
