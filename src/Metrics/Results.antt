-- ===== src/Metrics/Results.antt =====
-- server/metrics.go: what is counted.
use text.Mathlib.TextLemmas.{append_assoc}
use text.Mathlib.TextPositions.{starts_with-append}
use flaresolverr_go.Prelude.{
  true, ℕ, Option, eq_iff, has_prefix, ◌<>◌, subst, sym, suc, ltb, length, any, String, false, not,
  ◌&&◌, ◌||◌, Option, ◌∷◌, ◌==◌, ◌≡◌, refl, inl, inr, arith, ap, map, if◌then◌else◌, eqb,
  Bool-cases,
}
use flaresolverr_go.Service.{controller_v1}
use flaresolverr_go.Service.Replies.{IsReply, controller_v1-IsReply}
use flaresolverr_go.Service.Types.{Service, World, Request, Response}
use flaresolverr_go.Metrics.{
  prometheus_result, Metrics, or_unknown, solution_url, parse_domain_url, domain_of, observe,
}

-- The histogram and the counter have seen the same domains, and no domain is the empty text.
pub record IsCounted (m : Metrics) : Type 0 where
  pub same : map (λ e. e.0) m.durations ≡ map (λ e. e.0) m.counts
  pub named : any (λ e. e.0 == "") m.counts ≡ false

or_unknown-named : (d : String) → (or_unknown d == "") ≡ false
or_unknown-named d = elim (Bool-cases (d == "")) [ inl e ↦ rw e refl | inr e ↦ rw (e, e) refl ]

domain_of-named :
    (hostname : String → Option String) (req : Request) (res : Response)
    → (domain_of hostname req res == "") ≡ false
unfolding domain_of
domain_of-named hostname req res = or_unknown-named (
    if not (solution_url hostname res.solution == "")
    then parse_domain_url hostname (solution_url hostname res.solution)
    else if not (req.url == "")
    then parse_domain_url hostname req.url
    else "unknown")

-- Observing an answer keeps the histogram and the counter in step, with no empty domain; it adds
-- an entry to the counter exactly when the exporter is enabled and both times of the answer are
-- set.
pub observe-IsCounted :
    (hostname : String → Option String) (req : Request) (res : Response) (m : Metrics)
    → IsCounted m
    → let m' = observe hostname req res m in
      IsCounted m'
      × (length m'.counts ≡ (
          if m.enabled && (ltb 0 res.start_timestamp && ltb 0 res.end_timestamp)
          then suc (length m.counts)
          else length m.counts))
unfolding observe
observe-IsCounted hostname req res m c =
    elim (Bool-cases (not m.enabled || (eqb res.start_timestamp 0 || eqb res.end_timestamp 0))) [
      | inl e ↦ rw e (c, ground arith)
      | inr e ↦ rw e (
        record {
          same = ap (λ l. domain_of hostname req res ∷ l) c.same;
          named = rw (domain_of-named hostname req res) c.named;
        },
        ground arith,
      )
    ]

error_prefix : (e : String) → has_prefix ("Error: " <> e) "Error" ≡ true
error_prefix e =
    subst (λ s. has_prefix s "Error" ≡ true) (sym (append_assoc "Error" ": " e))
      (starts_with-append "Error" (": " <> e))

other_message : (e s : String) → has_prefix s "Error" ≡ false → (("Error: " <> e) == s) ≡ false
other_message e s h = elim (Bool-cases (("Error: " <> e) == s)) [
  | inl q ↦ cc (
    subst (λ r. has_prefix r "Error" ≡ true) ((eq_iff ("Error: " <> e) s).0 q) (error_prefix e),
    h,
  )
  | inr q ↦ q
]

counted :
    (res : Response) (status : ℕ)
    → IsReply res status
    → status ≡ 500
    → prometheus_result res.message ≡ "error"
unfolding prometheus_result
counted res status (inl (e, h)) f = absurd (ground (arith, e, f))
counted res status (inr (e, h, text, m)) f =
    rw
      (
        m,
        other_message text "Challenge solved!" refl,
        other_message text "Challenge not detected!" refl,
        error_prefix text,
      )
      refl

-- Observing an answer of ControllerV1 that has HTTP status 500 adds one entry under the result
-- "error", with the domain of the answer, where the exporter is enabled and both times are set, and
-- changes nothing otherwise.
pub failure-counted :
    (hostname : String → Option String) (m : Metrics) (req : Request) (w : World)
    (asked : Option Request) (s : Service)
    → (controller_v1 w asked s).1 ≡ 500
    → let res = (controller_v1 w asked s).0 in
      (observe hostname req res m).counts ≡ (
        if m.enabled && (ltb 0 res.start_timestamp && ltb 0 res.end_timestamp)
        then (domain_of hostname req res, "error") ∷ m.counts
        else m.counts)
unfolding observe
failure-counted hostname m req w asked s e =
    let (reply, version, began, ended) = controller_v1-IsReply w asked s in
    let res = (controller_v1 w asked s).0 in
    let label = counted res (controller_v1 w asked s).1 reply e in
    elim (Bool-cases (not m.enabled || (eqb res.start_timestamp 0 || eqb res.end_timestamp 0))) [
      | inl k ↦ rw k (ground arith)
      | inr k ↦ rw (k, label) (ground arith)
    ]
