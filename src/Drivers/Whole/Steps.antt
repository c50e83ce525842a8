-- ===== src/Drivers/Whole/Steps.antt =====
-- server/driver_manager.go and server/geckodriver_manager.go: what the steps of both managers keep.
use flaresolverr_go.Prelude.{
  String, Bool, true, not, is_some, ◌==◌, ◌≡◌, ◌≢◌, ap, refl, Error, Result, ok, err, arith, eq_iff,
  eqb, if_cases,
}
use flaresolverr_go.Drivers.Chrome.{made}
use flaresolverr_go.Prelude.Acts.{explaining, reads, demand}
use flaresolverr_go.Prelude.Acts.Triples.{bind, Triple, Leaves, read, demanded, kept, weaker}
use flaresolverr_go.Factory.{Machine}
use flaresolverr_go.Drivers.{Outside, World, Manage, Response, http_get, note, file_exists}
use flaresolverr_go.Drivers.Install.{make_dirs, install, http_request, checked, check_status}
use flaresolverr_go.Drivers.Install.Kept.{install-Triple}
use flaresolverr_go.Drivers.Whole.{IsWhole, IsDriver, IsDownloaded}

-- What other goroutines do while a lock is waited for keeps the drivers, too.
unfoldable pub OthersKeepDrivers : Machine → Outside → Type 0
OthersKeepDrivers m o = (s : World) → IsWhole m o s.files (o.meanwhile s).files

module _ (m : Machine) (o : Outside) (w : World) where
  abbrev pub Kept : World → Type 0
  Kept s = IsWhole m o w.files s.files

  -- The driver stands on the disk at the path.
  abbrev pub Found : String → World → Type 0
  Found path s = Kept s × (file_exists s path ≡ true)

  pub request-Kept :
      (url prefix : String) → Triple Kept (http_request o url prefix) (λ _. Kept) Kept
  request-Kept url prefix = kept λ s h. h

  answered-Leaves :
      (url prefix : String) (s : World) (x : Result Response)
      → Kept s
      → o.http_get s.events url ≡ x
      → Leaves
          (λ r t. Kept t × IsDownloaded m o r.limited)
          Kept
          (checked prefix x, note (http_get url) s)
  unfolding check_status
  answered-Leaves url prefix s (err e) h q = h
  answered-Leaves url prefix s (ok r) h q =
      if_cases
        (λ (y : Result Response).
          Leaves (λ r t. Kept t × IsDownloaded m o r.limited) Kept (y, note (http_get url) s))
        (eqb r.status_code 200)
        (λ b. (
          h,
          record {
            events = s.events;
            url = url;
            response = r;
            answered = q;
            status = ground arith;
            read = refl;
          },
        ))
        (λ _. h)

  -- A response is one of the network, and has status 200.
  pub request-Answered :
      (url prefix : String)
      → Triple Kept (http_request o url prefix) (λ r s. Kept s × IsDownloaded m o r.limited) Kept
  request-Answered url prefix = record {
    holds = λ s h. answered-Leaves url prefix s (o.http_get s.events url) h refl;
  }

  pub read-Kept :
      {A : Type 0} (r : Result A)
      → Triple Kept (reads λ (s : World). r) (λ a s. Kept s × (r ≡ ok a)) Kept
  read-Kept r = read (λ s. r) (λ s h. h)

  pub demanded-Kept :
      (b : Bool) (e : Error) → Triple Kept (demand b e) (λ _ s. Kept s × (b ≡ true)) Kept
  demanded-Kept b e = demanded b e (λ s h. h)

  pub is_not_empty : (s : String) → not (s == "") ≡ true → s ≢ ""
  is_not_empty s h = ground (arith, eq_iff s "")

  pub install-Found :
      (target bytes : String)
      → IsDriver m o bytes
      → Triple Kept (install o target bytes) (λ _. Found target) Kept
  unfolding file_exists
  install-Found target bytes d =
      weaker (λ _ s h. (h.0, ap is_some h.1)) (install-Triple m o w target bytes d)

  abbrev pub Keeps : {A : Type 0} → Manage A → Type 0
  Keeps {A} act = Triple Kept act (λ (_ : A). Kept) Kept

  pub made-Keeps : (prefix path : String) → Keeps (made m o prefix path)
  made-Keeps prefix path =
      bind {Q = λ _. Kept} {m = explaining prefix (make_dirs o path)} (kept λ s h. h)
        λ _. kept λ s h. h
