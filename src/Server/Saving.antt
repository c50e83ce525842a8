-- ===== src/Server/Saving.antt =====
-- The handlers of server/settings.go: what is saved, and what a request can change.
use flaresolverr_go.Prelude.{
  String, Bool, true, false, not, Option, none, some, List, [], ◌==◌, ◌≡◌, ◌≢◌, ◌⊎◌, refl, sym, ap,
  subst, inl, inr, Bool-cases, if◌then◌else◌, Error, Result, ok, err, arith, eq_iff,
}
use flaresolverr_go.Prelude.Int.{ℤ}
use flaresolverr_go.Config.{Config, prepare_config, default_config_values}
use flaresolverr_go.Config.Load.{ConfigFile, resolve_config_path, load_config}
use flaresolverr_go.Config.Save.{config_file_from_config}
use flaresolverr_go.Config.Yaml.{Node, Document, tree, placed, render_config_yaml}
use flaresolverr_go.Config.Yaml.Holds.{Decodes, IsMergeable}
use flaresolverr_go.Config.Yaml.Rendered.{rendered-IsMergeable}
use flaresolverr_go.Config.RoundTrip.{reads}
use flaresolverr_go.Settings.{Payload, to_config, guard_state_changing_request}
use flaresolverr_go.Settings.Restart.{saved_settings_survive}
use flaresolverr_go.Server.{
  Server, Answer, HttpRequest, Outside, apply_config, applied, saved, accepted, decoded, guarded,
  handle_settings_api, handle_v1_post, routes,
}

-- The settings of the request r were saved at this path and applied, which gave s'.
pub record IsSaved (o : Outside) (r : HttpRequest) (s s' : Server) : Type 0 where
  pub posted : r.method ≡ "POST"
  pub guard : guard_state_changing_request o.parse_media_type o.parse_url r.headers ≡ ok tt
  pub payload : Payload
  pub sent : r.settings ≡ some payload
  pub cfg : Config
  pub valid : to_config o.parse_url payload s.cfg ≡ ok cfg
  pub path : String
  pub written : o.save cfg ≡ ok path
  pub config_path : s'.config_path ≡ path
  pub disk : s'.disk ≡ tree (render_config_yaml s.disk (config_file_from_config cfg))
  pub running : s'.cfg ≡ prepare_config cfg

applied-server :
    (path : String) (o : List String × Option Error × Server) → (applied path o).1 ≡ o.2
unfolding applied
applied-server path (restart, none, s) = refl
applied-server path (restart, some e, s) = refl

-- The server is as it was, and the answer does not say that it saved.
abbrev IsRefused : Server → Answer × Server → Type 0
IsRefused s out = (out.1 ≡ s) × (out.0.status ≢ 200)

module _ (o : Outside) (r : HttpRequest) (s : Server) (posted : r.method ≡ "POST") where
  saved-IsSaved :
      (payload : Payload) (cfg : Config) (x : Result String)
      → guard_state_changing_request o.parse_media_type o.parse_url r.headers ≡ ok tt
      → r.settings ≡ some payload
      → to_config o.parse_url payload s.cfg ≡ ok cfg
      → o.save cfg ≡ x
      → IsRefused s (saved o cfg s x) ⊎ IsSaved o r s (saved o cfg s x).1
  unfolding saved apply_config
  saved-IsSaved payload cfg (err e) g sent valid w = inl (refl, ground arith)
  saved-IsSaved payload cfg (ok path) g sent valid w =
      let s' = record s {
        config_path = path;
        disk = tree (render_config_yaml s.disk (config_file_from_config cfg));
      } in
      inr (record {
        posted = posted;
        guard = g;
        payload = payload;
        sent = sent;
        cfg = cfg;
        valid = valid;
        path = path;
        written = w;
        config_path =
            ap (λ q. q.config_path) (applied-server path (apply_config o.shutdown cfg s'));
        disk = ap (λ q. q.disk) (applied-server path (apply_config o.shutdown cfg s'));
        running = ap (λ q. q.cfg) (applied-server path (apply_config o.shutdown cfg s'));
      })

  accepted-IsSaved :
      (payload : Payload) (x : Result Config)
      → guard_state_changing_request o.parse_media_type o.parse_url r.headers ≡ ok tt
      → r.settings ≡ some payload
      → to_config o.parse_url payload s.cfg ≡ x
      → IsRefused s (accepted o s x) ⊎ IsSaved o r s (accepted o s x).1
  unfolding accepted
  accepted-IsSaved payload (err e) g sent v = inl (refl, ground arith)
  accepted-IsSaved payload (ok cfg) g sent v = saved-IsSaved payload cfg (o.save cfg) g sent v refl

  decoded-IsSaved :
      (x : Option Payload)
      → guard_state_changing_request o.parse_media_type o.parse_url r.headers ≡ ok tt
      → r.settings ≡ x
      → IsRefused s (decoded o s x) ⊎ IsSaved o r s (decoded o s x).1
  unfolding decoded
  decoded-IsSaved none g sent = inl (refl, ground arith)
  decoded-IsSaved (some payload) g sent =
      accepted-IsSaved payload (to_config o.parse_url payload s.cfg) g sent refl

  guarded-IsSaved :
      (x : Result (Unit {0}))
      → guard_state_changing_request o.parse_media_type o.parse_url r.headers ≡ x
      → IsRefused s (guarded o r s x) ⊎ IsSaved o r s (guarded o r s x).1
  unfolding guarded
  guarded-IsSaved (err e) g = inl (refl, ground arith)
  guarded-IsSaved (ok x) g = decoded-IsSaved r.settings g refl

not_both : (method : String) → (method == "GET") ≡ true → ¬ (method ≡ "POST")
not_both method e p =
    let k : false ≡ true = subst (λ x. (x == "GET") ≡ true) p e in ground (arith, k)

-- A request changes nothing, and then a POST is not answered with 200, or it was saved.
posted-IsSaved :
    (o : Outside) (r : HttpRequest) (s : Server)
    → (((handle_settings_api o r s).1 ≡ s)
        × (r.method ≡ "POST" → (handle_settings_api o r s).0.status ≢ 200))
      ⊎ IsSaved o r s (handle_settings_api o r s).1
unfolding handle_settings_api
posted-IsSaved o r s = elim (Bool-cases (r.method == "GET")) [
  | inl e ↦ rw e (inl (refl, λ p. absurd (not_both r.method e p)))
  | inr e ↦ rw e (elim (Bool-cases (r.method == "POST")) [
    | inl e' ↦
        let g = guard_state_changing_request o.parse_media_type o.parse_url r.headers in
        rw e' (elim (guarded-IsSaved o r s ((eq_iff r.method "POST").0 e') g refl) [
          | inl k ↦ inl (k.0, λ p. k.1)
          | inr x ↦ inr x
        ])
    | inr e' ↦ rw e' (inl (refl, λ p. ground arith))
  ])
]

-- A request to the settings API changes nothing at all, or it was a POST that passed the guard
-- with a payload that passed the checks and was written to the file: then the running
-- configuration is the prepared one of that payload, and the file is the one before with the
-- settings of that payload merged into it.
pub handle_settings_api-IsAtomic :
    (o : Outside) (r : HttpRequest) (s : Server)
    → ((handle_settings_api o r s).1 ≡ s) ⊎ IsSaved o r s (handle_settings_api o r s).1
handle_settings_api-IsAtomic o r s = elim (posted-IsSaved o r s) [ inl k ↦ inl k.0 | inr x ↦ inr x ]

-- The server after a request is the one before it, and the answer to a POST is not 200; or it runs
-- with what the next start loads from its file, with nothing in the environment, and settings can be
-- merged into the file again.
pub IsPersisted :
    (Node → Result ConfigFile)
    → (String → Option ℤ)
    → (String → Document)
    → List String
    → HttpRequest
    → Server
    → Answer × Server
    → Type 0
IsPersisted decode atoi documents ps r s (answer, s') =
    ((s' ≡ s) × (r.method ≡ "POST" → answer.status ≢ 200))
    ⊎ (IsMergeable s'.disk
        × (load_config atoi (reads decode (placed documents s'.config_path s'.disk)) (λ _. "") ps
            ≡ (s'.cfg, [])))

module _ (decode : Node → Result ConfigFile) (o : Outside) (r : HttpRequest) (s : Server)
    (atoi : String → Option ℤ) (documents : String → Document) (ps : List String)
    (decodes : Decodes decode) (version : s.cfg.version ≡ default_config_values.version)
    (mergeable : IsMergeable s.disk)
    (finds : (cfg : Config) (path : String)
      → o.save cfg ≡ ok path
      → (resolve_config_path (reads decode documents) ps ≡ some path)
        × (documents path ≡ s.disk)) where
  saved-IsPersisted :
      (answer : Answer) (s' : Server)
      → IsSaved o r s s'
      → IsPersisted decode atoi documents ps r s (answer, s')
  unfolding IsPersisted
  saved-IsPersisted answer s' x =
      let file = config_file_from_config x.cfg in
      let (found, same) = finds x.cfg x.path x.written in
      let loaded : load_config atoi
            (reads decode
              (placed documents x.path (tree (render_config_yaml (documents x.path) file))))
            (λ _. "") ps
          ≡ (prepare_config x.cfg, []) =
        saved_settings_survive decode o.parse_url atoi documents x.path ps x.payload s.cfg x.cfg
          decodes version x.valid found (subst IsMergeable (sym same) mergeable) in
      inr (
        subst IsMergeable (sym x.disk) (rendered-IsMergeable s.disk file mergeable),
        rw (x.config_path, x.disk, x.running)
            (subst
              (λ d.
                load_config atoi
                  (reads decode (placed documents x.path (tree (render_config_yaml d file))))
                  (λ _. "") ps
                ≡ (prepare_config x.cfg, []))
              same loaded),
      )

  -- After any request to the settings API, the server either is unchanged, and a POST has not been
  -- answered with 200, or it runs with exactly the configuration that the next start of the same
  -- build loads from the file it has written, with nothing in the environment. This is so where
  -- saving writes to the path that the search finds, and the init.yaml there, where it is a mapping,
  -- has no key twice, no merge key, and no scalar for a proxy, which then holds of the new file
  -- again; and where the YAML decoder reads such mappings into the struct.
  pub saved_is_loaded : IsPersisted decode atoi documents ps r s (handle_settings_api o r s)
  unfolding IsPersisted
  saved_is_loaded = elim (posted-IsSaved o r s) [
    | inl k ↦ inl k
    | inr x ↦ saved-IsPersisted (handle_settings_api o r s).0 (handle_settings_api o r s).1 x
  ]

module _ (s : Server) where
  at_if : (b : Bool) (p q : Answer × Server) → p.1 ≡ s → q.1 ≡ s → (if b then p else q).1 ≡ s
  at_if true p q k l = k
  at_if false p q k l = l

  at_true : (b : Bool) (p q : Answer × Server) → b ≡ true → p.1 ≡ s → (if b then p else q).1 ≡ s
  at_true true p q h k = k
  at_true false p q h k = absurd (ground arith)

  at_false : (b : Bool) (p q : Answer × Server) → b ≡ false → q.1 ≡ s → (if b then p else q).1 ≡ s
  at_false true p q h k = absurd (ground arith)
  at_false false p q h k = k

-- A GET request changes nothing, whatever its path.
pub get_is_safe :
    (o : Outside) (r : HttpRequest) (s : Server) → r.method ≡ "GET" → (routes o r s).1 ≡ s
unfolding routes handle_settings_api handle_v1_post
get_is_safe o r s e = at_if s (r.path == "/health") _ _ refl (
    at_if s (r.path == "/settings") _ _ refl (
      at_if s (r.path == "/api/settings") _ _
        (at_true s (r.method == "GET") _ _ ((eq_iff r.method "GET").1 e) refl)
        (at_if s (r.path == "/v1") _ _ (at_false s (r.method == "POST") _ _ (rw e refl) refl)
          (at_if s (not (r.path == "/")) _ _ refl refl))))
