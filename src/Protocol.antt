-- ===== src/Protocol.antt =====
-- server/browser/w3c/session.go and server/browser/w3c/elements.go: the WebDriver protocol over HTTP,
-- and the search for an element in the document and its shadow roots. The driver's replies and the
-- JSON decoders are arguments; the replies depend on the requests before.
pub mod Bounds
pub mod Process
use flaresolverr_go.Prelude.{
  ℕ, zero, suc, ◌+◌, String, Bool, true, false, not, Option, none, some, List, [], ◌∷◌, ◌++◌, ◌==◌,
  ◌<>◌, trim, leb, if◌then◌else◌, Error, failure, Result, ok, err,
}
use flaresolverr_go.Service.Format.{show_ℕ}

-- StatusCode, and what io.ReadAll reads of the body.
pub record HttpReply : Type 0 where
  pub status_code : ℕ
  pub body : Result String

-- What a command gives: a value, a *DriverError with its code, or another error.
pub data Reply (A : Type 0) : Type 0 where
  value : A → Reply A
  driver_error : String → String → Reply A
  failed : Error → Reply A

-- A request: its path, and the selector that it carries, or "".
pub record Request : Type 0 where
  pub method : String
  pub path : String
  pub selector : String

-- The requests that were sent, the last one first.
abbrev pub Sent : Type 0
Sent = List Request

pub record Wire : Type 0 where
  pub err_prefix : String
  pub session_id : String
  pub send : Sent → Request → Result HttpReply
  -- The "value" of an envelope, and of an error its "error" and "message".
  pub envelope : String → Result String
  pub error_value : String → Option (String × String)
  -- Of each element or shadow root reference, what stands under its key, or "".
  pub references : String → Result (List String)
  pub shadow_reference : String → Result String

abbrev pub Command : Type 0 → Type 0
Command A = Sent → Reply A × Sent

-- if err != nil { return err }
abbrev pub forward : {A B : Type 0} → (A → Reply B) → Reply A → Reply B
forward f (value a) = f a
forward f (driver_error code message) = driver_error code message
forward f (failed e) = failed e

module _ (o : Wire) where
  http_error : ℕ → String
  http_error status = o.err_prefix <> (" http " <> show_ℕ status)

  -- A *DriverError, where the reply has a message or at least a code.
  error_of : ℕ → Option (String × String) → Reply String
  unfolding http_error
  error_of status none = failed (failure (http_error status))
  error_of status (some (code, message)) =
      if not (trim message == "")
      then driver_error (trim code) message
      else if not (trim code == "")
      then driver_error (trim code) (http_error status <> (": " <> trim code))
      else failed (failure (http_error status))

  opened : ℕ → String → Result String → Reply String
  unfolding http_error error_of
  opened status bytes (err e) =
      if leb 400 status
      then failed (failure (http_error status <> (": " <> trim bytes)))
      else failed e
  opened status bytes (ok v) =
      if leb 400 status
      then error_of status (if v == "" then none else o.error_value v)
      else value v

  -- The end of Do, from the reply on.
  unfoldable pub read_reply : Result HttpReply → Reply String
  unfolding opened
  read_reply (err e) = failed e
  read_reply (ok r) = elim r.body [
    | err e ↦ failed e
    | ok bytes ↦ opened r.status_code bytes (if bytes == "" then ok "" else o.envelope bytes)
  ]

  -- s.Do(ctx, method, s.Path(path), payload)
  unfoldable pub do_command : String → String → String → Command String
  unfolding read_reply
  do_command method path selector = λ sent.
      let request : Request = record {
        method = method;
        path = "/session/" <> (o.session_id <> path);
        selector = selector;
      } in
      (read_reply (o.send sent request), request ∷ sent)

  decoded : {A : Type 0} → Result A → Reply A
  decoded (ok a) = value a
  decoded (err e) = failed e

  -- The references that are not empty.
  not_empty : List String → List String
  not_empty [] = []
  not_empty (s ∷ ss) = if s == "" then not_empty ss else s ∷ not_empty ss

  found_elements : Reply String → Reply (List String)
  unfolding decoded not_empty
  found_elements (value raw) = forward (λ ids. value (not_empty ids)) (decoded (o.references raw))
  found_elements (driver_error code message) =
      if code == "no such element" then value [] else driver_error code message
  found_elements (failed e) = failed e

  unfoldable pub find_elements : String → String → Command (List String)
  unfolding found_elements
  find_elements path selector =
      λ sent. let r = do_command "POST" path selector sent in (found_elements r.0, r.1)

  shadow_of : Reply String → Reply String
  unfolding decoded
  shadow_of (value raw) = decoded (o.shadow_reference raw)
  shadow_of (driver_error code message) =
      if code == "no such shadow root"
      then value ""
      else if code == "no such element"
      then value ""
      else driver_error code message
  shadow_of (failed e) = failed e

  unfoldable pub shadow_root : String → Command String
  unfolding shadow_of
  shadow_root element = λ sent.
      let r = do_command "GET" ("/element/" <> (element <> "/shadow")) "" sent in
      (shadow_of r.0, r.1)

  -- findAllIn: a shadow root, or the document for "".
  unfoldable pub find_all_in : String → String → Command (List String)
  unfolding find_elements
  find_all_in root selector =
      if root == ""
      then find_elements "/elements" selector
      else find_elements ("/shadow/" <> (root <> "/elements")) selector

-- How far a walk has come: an element, the cap, or the hosts probed so far and the roots for later.
pub data Walk : Type 0 where
  found : String → ℕ → Walk
  capped : ℕ → Walk
  going : ℕ → List String → Walk

abbrev pub shadow_walk_max_nodes : ℕ
shadow_walk_max_nodes = 400

abbrev pub shadow_walk_max_depth : ℕ
shadow_walk_max_depth = 6

module _ (o : Wire) (selector : String) where
  -- The rest of the hosts, after the elements in the shadow root of one.
  on_matches :
      (ℕ → List String → Sent → Walk × Sent)
      → String
      → ℕ
      → List String
      → Reply (List String) × Sent
      → Walk × Sent
  on_matches next shadow walked deeper (value (id ∷ ids), sent) = (found id walked, sent)
  on_matches next shadow walked deeper (value [], sent) = next walked (deeper ++ (shadow ∷ [])) sent
  on_matches next shadow walked deeper (driver_error code message, sent) =
      next walked (deeper ++ (shadow ∷ [])) sent
  on_matches next shadow walked deeper (failed e, sent) = next walked (deeper ++ (shadow ∷ [])) sent

  on_shadow :
      (ℕ → List String → Sent → Walk × Sent) → ℕ → List String → Reply String × Sent → Walk × Sent
  unfolding on_matches
  on_shadow next walked deeper (driver_error code message, sent) = next walked deeper sent
  on_shadow next walked deeper (failed e, sent) = next walked deeper sent
  on_shadow next walked deeper (value shadow, sent) =
      if shadow == ""
      then next walked deeper sent
      else on_matches next shadow walked deeper
          (find_elements o ("/shadow/" <> (shadow <> "/elements")) selector sent)

  walk_hosts : List String → ℕ → List String → Sent → Walk × Sent
  unfolding on_shadow
  walk_hosts [] walked deeper sent = (going walked deeper, sent)
  walk_hosts (host ∷ hosts) walked deeper sent =
      if leb shadow_walk_max_nodes walked
      then (capped walked, sent)
      else on_shadow (walk_hosts hosts) (suc walked) deeper (shadow_root o host sent)

  -- The hosts of one root: on an error, none.
  on_hosts : ℕ → List String → Reply (List String) × Sent → Walk × Sent
  unfolding walk_hosts
  on_hosts walked deeper (value hosts, sent) = walk_hosts hosts walked deeper sent
  on_hosts walked deeper (driver_error code message, sent) = (going walked deeper, sent)
  on_hosts walked deeper (failed e, sent) = (going walked deeper, sent)

  -- What follows while the walk goes on.
  while_going : (ℕ → List String → Sent → Walk × Sent) → Walk × Sent → Walk × Sent
  while_going next (found id walked, sent) = (found id walked, sent)
  while_going next (capped walked, sent) = (capped walked, sent)
  while_going next (going walked deeper, sent) = next walked deeper sent

  walk_roots : List String → ℕ → List String → Sent → Walk × Sent
  unfolding on_hosts while_going
  walk_roots [] walked deeper sent = (going walked deeper, sent)
  walk_roots (root ∷ roots) walked deeper sent =
      while_going (walk_roots roots) (on_hosts walked deeper (find_all_in o root "*" sent))

  walk_depths : ℕ → ℕ → List String → Sent → Walk × Sent
  unfolding walk_roots
  walk_depths zero walked roots sent = (going walked roots, sent)
  walk_depths (suc depth) walked [] sent = (going walked [], sent)
  walk_depths (suc depth) walked (root ∷ roots) sent =
      while_going (walk_depths depth) (walk_roots (root ∷ roots) walked [] sent)

  -- The element, or "", or an error, and in each case the number of hosts probed.
  answer : Walk × Sent → (Reply String × ℕ) × Sent
  answer (found id walked, sent) = ((value id, walked), sent)
  answer (capped walked, sent) =
      ((failed (failure "shadow walk hit its 400-node cap"), walked), sent)
  answer (going walked roots, sent) = ((value "", walked), sent)

  first_match : Reply (List String) × Sent → (Reply String × ℕ) × Sent
  unfolding answer walk_depths
  first_match (driver_error code message, sent) = ((driver_error code message, 0), sent)
  first_match (failed e, sent) = ((failed e, 0), sent)
  first_match (value (id ∷ ids), sent) = ((value id, 0), sent)
  first_match (value [], sent) = answer (walk_depths shadow_walk_max_depth 0 ("" ∷ []) sent)

  unfoldable pub find_through_shadow_dom : Sent → (Reply String × ℕ) × Sent
  unfolding first_match
  find_through_shadow_dom sent = first_match (find_elements o "/elements" selector sent)
