-- ===== src/Protocol/Bounds.antt =====
-- server/browser/w3c/elements.go: how many hosts a walk through the shadow roots probes, and how many
-- requests it sends.
use flaresolverr_go.Prelude.{
  ℕ, zero, suc, ◌+◌, ◌*◌, ◌≤◌, String, List, [], ◌∷◌, ◌++◌, ◌==◌, ◌<>◌, length, leb, ◌≡◌, refl,
  if_cases, if_both, arith,
}
use flaresolverr_go.Protocol.{
  Reply, value, driver_error, failed, Sent, Wire, find_elements, do_command, shadow_root,
  find_all_in, Walk, found, capped, going, on_matches, on_shadow, walk_hosts, on_hosts, while_going,
  walk_roots, walk_depths, answer, first_match, find_through_shadow_dom, shadow_walk_max_nodes,
}

length-++ : {A : Type 0} (xs : List A) (y : A) → length (xs ++ (y ∷ [])) ≡ length xs + 1
length-++ [] y = refl
length-++ (x ∷ xs) y = ground (arith, length-++ xs y)

-- A search is one request.
module _ (o : Wire) where
  length-find :
      (path selector : String) (sent : Sent)
      → length (find_elements o path selector sent).1 ≡ suc (length sent)
  unfolding find_elements do_command
  length-find path selector sent = refl

  length-shadow :
      (host : String) (sent : Sent) → length (shadow_root o host sent).1 ≡ suc (length sent)
  unfolding shadow_root do_command
  length-shadow host sent = refl

  length-all :
      (root selector : String) (sent : Sent)
      → length (find_all_in o root selector sent).1 ≡ suc (length sent)
  unfolding find_all_in
  length-all root selector sent =
      if_both (λ (c : Sent → Reply (List String) × Sent). length (c sent).1 ≡ suc (length sent))
        (root == "") (length-find "/elements" selector sent)
        (length-find ("/shadow/" <> (root <> "/elements")) selector sent)

module _ (o : Wire) (selector : String) (start : ℕ) where
  -- The requests so far, one more for each root that is still to be searched, are at most two for
  -- the document and three for each host.
  Within : ℕ → ℕ → Sent → Type 0
  Within walked pending sent =
      (length sent + pending ≤ start + 2 + 3 * walked) × (walked ≤ shadow_walk_max_nodes)

  -- A walk stays within it, with these roots pending beside those it has found.
  Bounded : ℕ → Walk × Sent → Type 0
  Bounded pending (found id walked, sent) = Within walked 0 sent
  Bounded pending (capped walked, sent) = Within walked 0 sent
  Bounded pending (going walked roots, sent) = Within walked (pending + length roots) sent

  -- So does what follows.
  Goes : ℕ → (ℕ → List String → Sent → Walk × Sent) → Type 0
  Goes pending next =
      (walked : ℕ) (deeper : List String) (sent : Sent)
      → Within walked (pending + length deeper) sent
      → Bounded pending (next walked deeper sent)

  matches-Bounded :
      (pending : ℕ) (next : ℕ → List String → Sent → Walk × Sent) (shadow : String) (walked : ℕ)
      (deeper : List String) (x : Reply (List String) × Sent)
      → Goes pending next
      → Within walked (pending + length deeper + 1) x.1
      → Bounded pending (on_matches o selector next shadow walked deeper x)
  unfolding on_matches Bounded Within Goes
  matches-Bounded pending next shadow walked deeper (value (id ∷ ids), sent) g h =
      (ground arith, h.1)
  matches-Bounded pending next shadow walked deeper (value [], sent) g h =
      g walked (deeper ++ (shadow ∷ [])) sent (ground (arith, length-++ deeper shadow), h.1)
  matches-Bounded pending next shadow walked deeper (driver_error code message, sent) g h =
      g walked (deeper ++ (shadow ∷ [])) sent (ground (arith, length-++ deeper shadow), h.1)
  matches-Bounded pending next shadow walked deeper (failed e, sent) g h =
      g walked (deeper ++ (shadow ∷ [])) sent (ground (arith, length-++ deeper shadow), h.1)

  shadow-Bounded :
      (pending : ℕ) (next : ℕ → List String → Sent → Walk × Sent) (walked : ℕ)
      (deeper : List String) (x : Reply String × Sent)
      → Goes pending next
      → Within walked (pending + length deeper + 2) x.1
      → Bounded pending (on_shadow o selector next walked deeper x)
  unfolding on_shadow Within Goes
  shadow-Bounded pending next walked deeper (driver_error code message, sent) g h =
      g walked deeper sent (ground arith, h.1)
  shadow-Bounded pending next walked deeper (failed e, sent) g h =
      g walked deeper sent (ground arith, h.1)
  shadow-Bounded pending next walked deeper (value shadow, sent) g h =
      if_both (Bounded pending) (shadow == "") (g walked deeper sent (ground arith, h.1)) (
        matches-Bounded pending next shadow walked deeper
          (find_elements o ("/shadow/" <> (shadow <> "/elements")) selector sent) g
          (
            ground (arith, length-find o ("/shadow/" <> (shadow <> "/elements")) selector sent),
            h.1,
          ))

  hosts-Bounded : (pending : ℕ) (hosts : List String) → Goes pending (walk_hosts o selector hosts)
  unfolding walk_hosts Goes Bounded Within
  hosts-Bounded pending [] walked deeper sent h = h
  hosts-Bounded pending (host ∷ hosts) walked deeper sent h =
      if_cases (Bounded pending) (leb shadow_walk_max_nodes walked) (λ _. (ground arith, h.1))
        (λ b.
          shadow-Bounded pending (walk_hosts o selector hosts) (suc walked) deeper
            (shadow_root o host sent) (hosts-Bounded pending hosts)
            (ground (arith, length-shadow o host sent), ground arith))

  on_hosts-Bounded :
      (pending walked : ℕ) (deeper : List String) (x : Reply (List String) × Sent)
      → Within walked (pending + length deeper) x.1
      → Bounded pending (on_hosts o selector walked deeper x)
  unfolding on_hosts Bounded Goes
  on_hosts-Bounded pending walked deeper (value hosts, sent) h =
      hosts-Bounded pending hosts walked deeper sent h
  on_hosts-Bounded pending walked deeper (driver_error code message, sent) h = h
  on_hosts-Bounded pending walked deeper (failed e, sent) h = h

  while-Bounded :
      (pending later : ℕ) (next : ℕ → List String → Sent → Walk × Sent) (x : Walk × Sent)
      → Bounded pending x
      → ((walked : ℕ) (roots : List String) (sent : Sent)
          → Within walked (pending + length roots) sent
          → Bounded later (next walked roots sent))
      → Bounded later (while_going o selector next x)
  unfolding while_going Bounded
  while-Bounded pending later next (found id walked, sent) h g = h
  while-Bounded pending later next (capped walked, sent) h g = h
  while-Bounded pending later next (going walked roots, sent) h g = g walked roots sent h

  roots-Bounded :
      (roots : List String) (walked : ℕ) (deeper : List String) (sent : Sent)
      → Within walked (length roots + length deeper) sent
      → Bounded 0 (walk_roots o selector roots walked deeper sent)
  unfolding walk_roots Bounded Within
  roots-Bounded [] walked deeper sent h = h
  roots-Bounded (root ∷ roots) walked deeper sent h =
      while-Bounded (length roots) 0 (walk_roots o selector roots)
        (on_hosts o selector walked deeper (find_all_in o root "*" sent))
        (on_hosts-Bounded (length roots) walked deeper (find_all_in o root "*" sent)
          (ground (arith, length-all o root "*" sent), h.1))
        (roots-Bounded roots)

  depths-Bounded :
      (depth walked : ℕ) (roots : List String) (sent : Sent)
      → Within walked (length roots) sent
      → Bounded 0 (walk_depths o selector depth walked roots sent)
  unfolding walk_depths Bounded Within
  depths-Bounded zero walked roots sent h = (ground arith, h.1)
  depths-Bounded (suc depth) walked [] sent h = (ground arith, h.1)
  depths-Bounded (suc depth) walked (root ∷ roots) sent h =
      while-Bounded 0 0 (walk_depths o selector depth)
        (walk_roots o selector (root ∷ roots) walked [] sent)
        (roots-Bounded (root ∷ roots) walked [] sent (ground arith, h.1))
        (λ later deeper wire k. depths-Bounded depth later deeper wire (ground arith, k.1))

  -- At most 400 hosts are probed, and 1202 requests sent.
  pub IsBounded : (Reply String × ℕ) × Sent → Type 0
  IsBounded ((reply, walked), sent) =
      (walked ≤ shadow_walk_max_nodes) × (length sent ≤ start + 1202)

  answer-IsBounded : (x : Walk × Sent) → Bounded 0 x → IsBounded (answer o selector x)
  unfolding answer Bounded Within IsBounded
  answer-IsBounded (found id walked, sent) h = (h.1, ground arith)
  answer-IsBounded (capped walked, sent) h = (h.1, ground arith)
  answer-IsBounded (going walked roots, sent) h = (h.1, ground arith)

  first-IsBounded :
      (x : Reply (List String) × Sent)
      → length x.1 ≡ suc start
      → IsBounded (first_match o selector x)
  unfolding first_match IsBounded Within
  first-IsBounded (driver_error code message, sent) e = (ground arith, ground arith)
  first-IsBounded (failed x, sent) e = (ground arith, ground arith)
  first-IsBounded (value (id ∷ ids), sent) e = (ground arith, ground arith)
  first-IsBounded (value [], sent) e =
      answer-IsBounded (walk_depths o selector 6 0 ("" ∷ []) sent)
        (depths-Bounded 6 0 ("" ∷ []) sent (ground arith, ground arith))

-- FindThroughShadowDOM ends on every page, whatever the driver answers: it probes at most 400 hosts,
-- and sends at most 1202 requests, one and one for the document, one for each shadow root that it
-- searches on, and two for each host.
pub find_through_shadow_dom-IsBounded :
    (o : Wire) (selector : String) (sent : Sent)
    → IsBounded o selector (length sent) (find_through_shadow_dom o selector sent)
unfolding find_through_shadow_dom
find_through_shadow_dom-IsBounded o selector sent =
    first-IsBounded o selector (length sent) (find_elements o "/elements" selector sent)
      (length-find o "/elements" selector sent)
