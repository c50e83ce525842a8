-- ===== src/Service/Replies.antt =====
-- The replies to /v1 of server/service.go.
use flaresolverr_go.Prelude.{
  ℕ, String, Bool, true, false, Option, none, some, ◌<>◌, ◌≡◌, ◌≢◌, ◌↔◌, ◌⊎◌, refl, inl, inr,
  Bool-cases, Error, error_text, Result, ok, err, arith, eq_iff, equal_fold,
}
use Prim.Native.String.{String}
use flaresolverr_go.Session.Store.{Store}
use flaresolverr_go.Settings.{Url}
use flaresolverr_go.Service.Types.{
  Request, Response, Service, World, Method, http_get, http_post, Solution,
}
use flaresolverr_go.Service.Resolve.{resolve_challenge}
use flaresolverr_go.Service.Commands.{at_command}
use flaresolverr_go.Service.{
  after_create, cmd_sessions_create, after_destroy, cmd_sessions_destroy, after_resolve, checked,
  cmd_request, handle_v1, request_error, controller_v1, responded, cmd_sessions_list, is_web_url,
  post_data_error,
}

-- A reply with no error has the status "ok".
abbrev IsOk : Result Response × Service → Type 0
IsOk (ok res, s) = res.status ≡ "ok"
IsOk (err e, s) = Unit

after_create-IsOk :
    (w : World) (s : Service) (o : Result (ℕ × Bool) × Store) → IsOk (after_create w s o)
unfolding after_create
after_create-IsOk w s (err e, m) = tt
after_create-IsOk w s (ok (r, false), m) = refl
after_create-IsOk w s (ok (r, true), m) = refl

after_destroy-IsOk : (s : Service) (o : Bool × Store) → IsOk (after_destroy s o)
unfolding after_destroy
after_destroy-IsOk s (false, m) = tt
after_destroy-IsOk s (true, m) = refl

checked-IsOk :
    (w : World) (req : Request) (method : Method) (s : Service) (o : Option Error)
    → IsOk (checked w req method s o)
unfolding checked after_resolve
checked-IsOk w req method s (some e) = tt
checked-IsOk w req method s none = go (resolve_challenge w req method s)
  where
    go : (o : Result (Option Solution × String) × Service) → IsOk (after_resolve o)
    go (err e, s') = tt
    go (ok (solution, message), s') = refl

handle_v1-IsOk : (w : World) (req : Option Request) (s : Service) → IsOk (handle_v1 w req s)
unfolding cmd_sessions_create cmd_sessions_destroy cmd_request cmd_sessions_list
handle_v1-IsOk w req s =
    at_command IsOk w s (λ e. tt) (λ req. after_create-IsOk w s _) refl
      (λ req. after_destroy-IsOk s _) (λ req method. checked-IsOk w req method s _) req

-- A response and its HTTP status that belong together.
abbrev pub IsReply : Response → ℕ → Type 0
IsReply res status =
    ((status ≡ 200) × (res.status ≡ "ok"))
    ⊎ ((status ≡ 500) × (res.status ≡ "error") × (e : String) × (res.message ≡ "Error: " <> e))

-- Every answer of ControllerV1 is either HTTP 200 with the status "ok", or HTTP 500 with the status "error"
-- and a message that starts with "Error: "; it carries the version of the configuration and the
-- times at which the request began and ended.
pub controller_v1-IsReply :
    (w : World) (req : Option Request) (s : Service)
    → let (res, status, s') = controller_v1 w req s in
      IsReply res status
      × (res.version ≡ s'.cfg.version)
      × (res.start_timestamp ≡ w.start_ms)
      × (res.end_timestamp ≡ w.end_ms)
unfolding controller_v1
controller_v1-IsReply w req s = go (handle_v1 w req s) (handle_v1-IsOk w req s)
  where
    go :
        (o : Result Response × Service)
        → IsOk o
        → IsReply (responded o.0).0 (responded o.0).1
          × (o.1.cfg.version ≡ o.1.cfg.version)
          × (w.start_ms ≡ w.start_ms)
          × (w.end_ms ≡ w.end_ms)
    go (ok res, s') h = (inl (refl, h), refl, refl, refl)
    go (err e, s') h = (inr (refl, refl, error_text e, refl), refl, refl, refl)

-- What request.get and request.post ask of a request.
pub record IsSound (w : World) (req : Request) (method : Method) : Type 0 where
  pub url : req.url ≢ ""
  pub web :
      (u : Url) × (w.parse_url req.url ≡ some u)
      × (u.host ≢ "")
      × ((equal_fold u.scheme "http" ≡ true) ⊎ (equal_fold u.scheme "https" ≡ true))
  pub body : (req.post_data ≡ "") ↔ (method ≡ http_get)

sound_web :
    (o : Option Url)
    → is_web_url o ≡ true
    → (u : Url) × (o ≡ some u)
      × (u.host ≢ "")
      × ((equal_fold u.scheme "http" ≡ true) ⊎ (equal_fold u.scheme "https" ≡ true))
sound_web none h = absurd (ground arith)
sound_web (some u) h = (
  u,
  refl,
  ground (arith, eq_iff u.host ""),
  elim (Bool-cases (equal_fold u.scheme "http")) [ inl e ↦ inl e | inr e ↦ inr (ground arith) ],
)

complete_web :
    (o : Option Url) (u : Url)
    → o ≡ some u
    → u.host ≢ ""
    → ((equal_fold u.scheme "http" ≡ true) ⊎ (equal_fold u.scheme "https" ≡ true))
    → is_web_url o ≡ true
complete_web none u e h s = absurd (ground arith)
complete_web (some v) u e h (inl s) = ground (arith, eq_iff v.host "", eq_iff u.host "")
complete_web (some v) u e h (inr s) = ground (arith, eq_iff v.host "", eq_iff u.host "")

body_sound :
    (method : Method) (text : String)
    → post_data_error method text ≡ none
    → (text ≡ "") ↔ (method ≡ http_get)
unfolding post_data_error
body_sound http_get text h = (λ _. refl, λ _. ground (arith, eq_iff text ""))
body_sound http_post text h = (λ e. ground (arith, eq_iff text ""), λ e. ground arith)

body_complete :
    (method : Method) (text : String)
    → (text ≡ "") ↔ (method ≡ http_get)
    → post_data_error method text ≡ none
unfolding post_data_error
body_complete http_get text h = ground (arith, h.1 refl, eq_iff text "")
body_complete http_post text h = ground (arith, h.0, eq_iff text "")

sound :
    (w : World) (req : Request) (method : Method)
    → request_error w req method ≡ none
    → IsSound w req method
unfolding request_error
sound w req method h = record {
  url = ground (arith, eq_iff req.url "");
  web = sound_web (w.parse_url req.url) (ground arith);
  body = body_sound method req.post_data (ground arith);
}

complete :
    (w : World) (req : Request) (method : Method)
    → IsSound w req method
    → request_error w req method ≡ none
unfolding request_error
complete w req method s =
    let (u, e, h, scheme) = s.web in
    ground (
      arith,
      eq_iff req.url "",
      s.url,
      complete_web (w.parse_url req.url) u e h scheme,
      body_complete method req.post_data s.body,
    )

-- The checks in front of a resolution pass a request exactly when it has a URL, that URL is an
-- absolute http or https one, and it has a body if and only if it is a POST.
pub request_error_iff :
    (w : World) (req : Request) (method : Method)
    → (request_error w req method ≡ none) ↔ IsSound w req method
request_error_iff w req method = (sound w req method, complete w req method)

-- A request.get or request.post that is answered with no error had a URL, an absolute http or
-- https one, and a body if and only if it was a POST.
pub answered-IsSound :
    (w : World) (req : Request) (method : Method) (s s' : Service) (res : Response)
    → cmd_request w req method s ≡ (ok res, s')
    → IsSound w req method
unfolding cmd_request
answered-IsSound w req method s s' res e = go (request_error w req method) refl e
  where
    go :
        (o : Option Error)
        → request_error w req method ≡ o
        → checked w req method s o ≡ (ok res, s')
        → IsSound w req method
    go none h e' = sound w req method h
    go (some x) h e' = absurd (unfold checked in ground arith)
