-- ===== src/Session/Invariant.antt =====
-- What holds of every reachable store and of the goroutines that share it.
use flaresolverr_go.Prelude.{
  ℕ, ◌<◌, ◌≤◌, ◌≡◌, refl, sym, ◌∙◌, ◌⊎◌, inl, inr, ◌≢◌, true, false, none, some, arith, update,
  ℕ_discrete,
}
use mathlib.Core.Logic.{if_pos, if_neg}
use native.Mathlib.Decide.{dec_lt}
use flaresolverr_go.Config.{Config}
use flaresolverr_go.Session.Store.{Store, new_session_store}
use flaresolverr_go.Session.Steps.{Pc, idle, System, Step, pick, Reach, start, later}
use flaresolverr_go.Session.Moves.{
  Move, advance-Move, builds, holds, settled, usable, owes, below, sound_at,
}
use flaresolverr_go.Session.Effects.{Move-next, Move-ready, Move-unready, Move-locked}
use flaresolverr_go.Session.Sound.{
  Move-sound, Move-unused, Move-builds, Move-settled, Move-usable, Move-holds,
}
use flaresolverr_go.Session.Kept.{
  Fine, Kept, within, below_mono, Move-Kept, Move-Fine_new, Move-within, Move-below,
}

-- A session that is not finished has one goroutine that builds it, a locked one has one goroutine
-- that resolves on it, and a session that is not kept by the store has one that will close it.
pub record Inv (m : Store) (pc : ℕ → Pc) : Type 0 where
  pub sound : (r : ℕ) → sound_at m r ≡ true
  pub unused : (r : ℕ) → m.next ≤ r → m.closes r ≡ 0
  pub bound : within m.next m.sessions ≡ true
  pub known : (i : ℕ) → below m.next (pc i) ≡ true
  pub builder : (i r : ℕ) → builds (pc i) ≡ some r → (m.heap r).ready ≡ false
  pub one_builder : (i j r : ℕ) → builds (pc i) ≡ some r → builds (pc j) ≡ some r → i ≡ j
  pub settled : (i r : ℕ) → settled (pc i) ≡ some r → (m.heap r).ready ≡ true
  pub usable : (i r : ℕ) → usable (pc i) ≡ some r → (m.heap r).error ≡ none
  pub holder : (i r : ℕ) → holds (pc i) ≡ some r → (m.heap r).locked ≡ true
  pub one_holder : (i j r : ℕ) → holds (pc i) ≡ some r → holds (pc j) ≡ some r → i ≡ j
  pub kept : (r : ℕ) → r < m.next → Fine m r ⊎ ((i : ℕ) × (owes r (pc i) ≡ true))

Inv-init : (cfg : Config) → Inv (new_session_store cfg) (λ _. idle)
Inv-init cfg = record {
  sound = λ r. refl;
  unused = λ r h. refl;
  bound = refl;
  known = λ i. refl;
  builder = λ i r e. cc;
  one_builder = λ i j r e f. cc;
  settled = λ i r e. cc;
  usable = λ i r e. cc;
  holder = λ i r e. cc;
  one_holder = λ i j r e f. cc;
  kept = λ r lt. absurd (omega arith);
}

builds-below : (n r : ℕ) (p : Pc) → below n p ≡ true → builds p ≡ some r → r < n
builds-below n r p b e = ground arith

settled-below : (n r : ℕ) (p : Pc) → below n p ≡ true → settled p ≡ some r → r < n
settled-below n r p b e = ground arith

usable-settled : (r : ℕ) (p : Pc) → usable p ≡ some r → settled p ≡ some r
usable-settled r p e = ground arith

holds-settled : (r : ℕ) (p : Pc) → holds p ≡ some r → settled p ≡ some r
holds-settled r p e = ground arith

-- A fact about a goroutine after a move of one is about that one or about another.
update_cases :
    (Q : Pc → Type 0) (pc : ℕ → Pc) (i j : ℕ) (p : Pc)
    → Q (update pc i p j)
    → ((i ≡ j) × Q p) ⊎ ((i ≢ j) × Q (pc j))
update_cases Q pc i j p q = elim (ℕ_discrete i j) [
  | yes h ↦ inl (h, rw (if_pos _ h) at q)
  | no h ↦ inr (h, rw (if_neg _ h) at q)
]

-- One goroutine moves.
module _ {m : Store} {pc : ℕ → Pc} {m' : Store} {p' : Pc} (v : Inv m pc) (i : ℕ)
    (mv : Move m (pc i) m' p') where
  abbrev pc' : ℕ → Pc
  pc' = update pc i p'

  known' : (j : ℕ) → below m'.next (pc' j) ≡ true
  known' j = elim (ℕ_discrete i j) [
    | yes h ↦ rw (if_pos _ h) (Move-below mv v.bound (v.known i))
    | no h ↦ rw (if_neg _ h) (below_mono _ _ (pc j) (Move-next mv) (v.known j))
  ]

  builder' : (j r : ℕ) → builds (pc' j) ≡ some r → (m'.heap r).ready ≡ false
  builder' j r e = elim (update_cases (λ p. builds p ≡ some r) pc i j p' e) [
    | inl (h, q) ↦ (Move-builds r mv q).0
    | inr (h, q) ↦
        Move-unready r mv (builds-below m.next r (pc j) (v.known j) q) (v.builder j r q)
          (λ b. h (v.one_builder i j r b q))
  ]

  -- A session that is being made is not one that was being built.
  not_both : (j r : ℕ) → builds p' ≡ some r → builds (pc j) ≡ some r → ⊥
  not_both j r q q' =
      omega (arith, (Move-builds r mv q).1, builds-below m.next r (pc j) (v.known j) q')

  one_builder' : (j k r : ℕ) → builds (pc' j) ≡ some r → builds (pc' k) ≡ some r → j ≡ k
  one_builder' j k r e f = elim (update_cases (λ p. builds p ≡ some r) pc i j p' e) [
    | inl (h, q) ↦ elim (update_cases (λ p. builds p ≡ some r) pc i k p' f) [
      | inl (h', q') ↦ sym h ∙ h'
      | inr (h', q') ↦ absurd (not_both k r q q')
    ]
    | inr (h, q) ↦ elim (update_cases (λ p. builds p ≡ some r) pc i k p' f) [
      | inl (h', q') ↦ absurd (not_both j r q' q)
      | inr (h', q') ↦ v.one_builder j k r q q'
    ]
  ]

  stays_ready :
      (j r : ℕ)
      → settled (pc j) ≡ some r
      → ((m'.heap r).ready ≡ true) × ((m'.heap r).error ≡ (m.heap r).error)
  stays_ready j r q =
      Move-ready r mv (settled-below m.next r (pc j) (v.known j) q) (v.settled j r q) (v.builder i)

  settled' : (j r : ℕ) → settled (pc' j) ≡ some r → (m'.heap r).ready ≡ true
  settled' j r e = elim (update_cases (λ p. settled p ≡ some r) pc i j p' e) [
    | inl (h, q) ↦ Move-settled r mv (v.settled i) q
    | inr (h, q) ↦ (stays_ready j r q).0
  ]

  usable' : (j r : ℕ) → usable (pc' j) ≡ some r → (m'.heap r).error ≡ none
  usable' j r e = elim (update_cases (λ p. usable p ≡ some r) pc i j p' e) [
    | inl (h, q) ↦ Move-usable r mv (v.usable i) q
    | inr (h, q) ↦ (stays_ready j r (usable-settled r (pc j) q)).1 ∙ v.usable j r q
  ]

  holder' : (j r : ℕ) → holds (pc' j) ≡ some r → (m'.heap r).locked ≡ true
  holder' j r e = elim (update_cases (λ p. holds p ≡ some r) pc i j p' e) [
    | inl (h, q) ↦ (Move-holds r mv q).0
    | inr (h, q) ↦
        Move-locked r mv (settled-below m.next r (pc j) (v.known j) (holds-settled r (pc j) q))
          (v.holder j r q) (λ b. h (v.one_holder i j r b q))
  ]

  -- A session that is being locked is not one that was locked.
  not_both_hold : (j r : ℕ) → holds p' ≡ some r → holds (pc j) ≡ some r → ⊥
  not_both_hold j r q q' = cc ((Move-holds r mv q).1, v.holder j r q')

  one_holder' : (j k r : ℕ) → holds (pc' j) ≡ some r → holds (pc' k) ≡ some r → j ≡ k
  one_holder' j k r e f = elim (update_cases (λ p. holds p ≡ some r) pc i j p' e) [
    | inl (h, q) ↦ elim (update_cases (λ p. holds p ≡ some r) pc i k p' f) [
      | inl (h', q') ↦ sym h ∙ h'
      | inr (h', q') ↦ absurd (not_both_hold k r q q')
    ]
    | inr (h, q) ↦ elim (update_cases (λ p. holds p ≡ some r) pc i k p' f) [
      | inl (h', q') ↦ absurd (not_both_hold j r q' q)
      | inr (h', q') ↦ v.one_holder j k r q q'
    ]
  ]

  abbrev Owed : ℕ → Type 0
  Owed r = (j : ℕ) × (owes r (pc' j) ≡ true)

  Owed-by_mover : (r : ℕ) → Kept m' r p' → Fine m' r ⊎ Owed r
  Owed-by_mover r (inl f) = inl f
  Owed-by_mover r (inr o) = inr (i, rw (if_pos _ refl) o)

  still-Kept : (r : ℕ) → r < m.next → Kept m r (pc i) → Fine m' r ⊎ Owed r
  still-Kept r lt k = Owed-by_mover r (Move-Kept r mv (v.builder i) v.sound lt k)

  kept' : (r : ℕ) → r < m'.next → Fine m' r ⊎ Owed r
  kept' r lt = elim (dec_lt r m.next) [
    | yes old ↦ elim (v.kept r old) [
      | inl f ↦ still-Kept r old (inl f)
      | inr (j, o) ↦ elim (ℕ_discrete i j) [
        | yes h ↦ still-Kept r old (inr (rw h o))
        | no h ↦ inr (j, rw (if_neg _ h) o)
      ]
    ]
    | no new ↦ inl (Move-Fine_new r mv (omega arith) lt)
  ]

  Move-Inv : Inv m' pc'
  Move-Inv = record {
    sound =
        λ r. Move-sound r mv (v.builder i) (v.unused m.next (omega arith)) (v.known i) (v.sound r);
    unused = λ r h. Move-unused r mv (v.known i) h (v.unused r);
    bound = Move-within mv v.bound;
    known = known';
    builder = builder';
    one_builder = one_builder';
    settled = settled';
    usable = usable';
    holder = holder';
    one_holder = one_holder';
    kept = kept';
  }

pub Step-Inv : {s t : System} → Step s t → Inv s.store s.pc → Inv t.store t.pc
Step-Inv {s} (pick i input m p e) v = Move-Inv v i (advance-Move input s.store (s.pc i) m p e)

pub Reach-Inv : {cfg : Config} {s : System} → Reach cfg s → Inv s.store s.pc
Reach-Inv {cfg} start = Inv-init cfg
Reach-Inv (later r st) = Step-Inv st (Reach-Inv r)
