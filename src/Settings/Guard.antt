-- ===== src/Settings/Guard.antt =====
-- What the guard lets through, and what the checks of a payload establish.
use flaresolverr_go.Prelude.{
  ℕ, ◌≤◌, String, subst, ok-injective, true, false, ◌||◌, ap, ◌≡◌, ◌≢◌, refl, ◌⊎◌, inl, inr, ◌↔◌,
  Option, none, some, [], ◌∷◌, trim, equal_fold, ◌==◌, is_one_of, ok, >>=-eq-ok, arith, eq_iff,
  Bool-cases,
}
use flaresolverr_go.Prelude.Int.{ℤ, pos, negsuc, eqb_ℤ}
use flaresolverr_go.Config.{Config, Proxy}
use flaresolverr_go.Settings.{
  Url, ParseUrl, Payload, Headers, guard_state_changing_request, to_config, validate, has_scheme,
  is_host, media_is, is_port,
}

-- The request is JSON, no browser says that another site sent it, and its Origin, if it has one,
-- is the host that is asked.
pub record IsOwn (parse_media_type : String → Option String) (parse_url : ParseUrl) (h : Headers)
    : Type 0 where
  pub json : parse_media_type h.content_type ≡ some "application/json"
  pub site :
      (h.sec_fetch_site ≡ "") ⊎ ((h.sec_fetch_site ≡ "same-origin") ⊎ (h.sec_fetch_site ≡ "none"))
  pub origin :
      (trim h.origin ≡ "")
      ⊎ ((u : Url) × (parse_url (trim h.origin) ≡ some u) × (equal_fold u.host h.host ≡ true))

guard_tests :
    (parse_media_type : String → Option String) (parse_url : ParseUrl) (h : Headers)
    → guard_state_changing_request parse_media_type parse_url h ≡ ok tt
    → (media_is "application/json" (parse_media_type h.content_type) ≡ true)
      × (is_one_of h.sec_fetch_site ("" ∷ "same-origin" ∷ "none" ∷ []) ≡ true)
      × (((trim h.origin == "") || is_host h.host (parse_url (trim h.origin))) ≡ true)
unfolding guard_state_changing_request
guard_tests parse_media_type parse_url h e = ground arith

media_is_sound : (t : String) (o : Option String) → media_is t o ≡ true → o ≡ some t
media_is_sound t none e = cc
media_is_sound t (some s) e = ap some ((eq_iff s t).0 e)

site_sound :
    (s : String)
    → is_one_of s ("" ∷ "same-origin" ∷ "none" ∷ []) ≡ true
    → (s ≡ "") ⊎ ((s ≡ "same-origin") ⊎ (s ≡ "none"))
site_sound s e = ground (arith, eq_iff s "", eq_iff s "same-origin", eq_iff s "none")

is_host_sound :
    (host : String) (o : Option Url)
    → is_host host o ≡ true
    → (u : Url) × (o ≡ some u) × (equal_fold u.host host ≡ true)
is_host_sound host none h = cc
is_host_sound host (some u) h = (u, refl, h)

origin_sound :
    (s : String) (host : String) (o : Option Url)
    → ((s == "") || is_host host o) ≡ true
    → (s ≡ "") ⊎ ((u : Url) × (o ≡ some u) × (equal_fold u.host host ≡ true))
origin_sound s host o h = elim (Bool-cases (s == "")) [
  | inl e ↦ inl ((eq_iff s "").0 e)
  | inr e ↦ inr (is_host_sound host o (rw e at h))
]

guard_complete :
    (parse_media_type : String → Option String) (parse_url : ParseUrl) (h : Headers)
    → IsOwn parse_media_type parse_url h
    → guard_state_changing_request parse_media_type parse_url h ≡ ok tt
unfolding guard_state_changing_request
guard_complete parse_media_type parse_url h o = ground (
  arith,
  o.json,
  o.site,
  o.origin,
  eq_iff (trim h.origin) "",
  eq_iff h.sec_fetch_site "",
  eq_iff h.sec_fetch_site "same-origin",
  eq_iff h.sec_fetch_site "none",
  eq_iff "application/json" "application/json",
)

-- A request that changes state is let through exactly when its media type is application/json, its
-- Sec-Fetch-Site is absent, same-origin or none, and its Origin is absent or has the host that is
-- asked.
pub guard_iff :
    (parse_media_type : String → Option String) (parse_url : ParseUrl) (h : Headers)
    → (guard_state_changing_request parse_media_type parse_url h ≡ ok tt)
      ↔ IsOwn parse_media_type parse_url h
guard_iff parse_media_type parse_url h = (
  (λ e.
      let (j, s, o) = guard_tests parse_media_type parse_url h e in
      record {
        json = media_is_sound _ _ j;
        site = site_sound h.sec_fetch_site s;
        origin = origin_sound (trim h.origin) h.host (parse_url (trim h.origin)) o;
      }),
  guard_complete parse_media_type parse_url h,
)

-- The settings that the checks establish.
pub record IsSafe (parse_url : ParseUrl) (c : Config) : Type 0 where
  pub port : (n : ℕ) × (c.port ≡ pos n) × (1 ≤ n) × (n ≤ 65535)
  pub prometheus_port : (n : ℕ) × (c.prometheus_port ≡ pos n) × (1 ≤ n) × (n ≤ 65535)
  pub differ : c.port ≢ c.prometheus_port
  pub https :
      (c.chrome_for_testing_url ≡ "")
      ⊎ ((u : Url) × (parse_url c.chrome_for_testing_url ≡ some u)
          × (u.host ≢ "")
          × (equal_fold u.scheme "https" ≡ true))

checks :
    (parse_url : ParseUrl) (p : Payload) (level : String) (proxy : Option Proxy)
    → validate parse_url p ≡ ok (level, proxy)
    → (is_port p.port ≡ true)
      × (is_port p.prometheus_port ≡ true)
      × (eqb_ℤ p.port p.prometheus_port ≡ false)
      × (((trim p.chrome_for_testing_url == "")
            || has_scheme "https" (parse_url (trim p.chrome_for_testing_url)))
          ≡ true)
unfolding validate
checks parse_url p level proxy e = ground arith

is_port_sound : (z : ℤ) → is_port z ≡ true → (n : ℕ) × (z ≡ pos n) × (1 ≤ n) × (n ≤ 65535)
is_port_sound (pos n) h = (n, refl, ground arith, ground arith)
is_port_sound (negsuc n) h = absurd (ground arith)

eqb_refl : (z w : ℤ) → eqb_ℤ z w ≡ false → z ≢ w
eqb_refl z w h = ground arith

https_sound :
    (s : String) (o : Option Url)
    → ((s == "") || has_scheme "https" o) ≡ true
    → (s ≡ "") ⊎ ((u : Url) × (o ≡ some u) × (u.host ≢ "") × (equal_fold u.scheme "https" ≡ true))
https_sound s none h = inl (ground (arith, eq_iff s ""))
https_sound s (some u) h = elim (Bool-cases (s == "")) [
  | inl e ↦ inl ((eq_iff s "").0 e)
  | inr e ↦ inr (u, refl, ground (arith, eq_iff u.host ""), ground arith)
]

-- A payload that is accepted gives two different ports in range, and a download URL that is empty
-- or absolute and https.
pub to_config-IsSafe :
    (parse_url : ParseUrl) (p : Payload) (base cfg : Config)
    → to_config parse_url p base ≡ ok cfg
    → IsSafe parse_url cfg
unfolding to_config
to_config-IsSafe parse_url p base cfg e =
    let ((level, proxy), h, e') = >>=-eq-ok (validate parse_url p) _ e in
    let (h1, h2, h3, h4) = checks parse_url p level proxy h in
    subst (IsSafe parse_url) (ok-injective e') (record {
      port = is_port_sound p.port h1;
      prometheus_port = is_port_sound p.prometheus_port h2;
      differ = eqb_refl p.port p.prometheus_port h3;
      https = https_sound (trim p.chrome_for_testing_url) _ h4;
    })
