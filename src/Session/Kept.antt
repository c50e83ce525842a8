-- ===== src/Session/Kept.antt =====
-- Addresses stay below the next one, and no session that is to be closed is forgotten.
use flaresolverr_go.Prelude.{
  ℕ, suc, ◌<◌, ◌≤◌, ◌≡◌, refl, subst, ◌⊎◌, inl, inr, String, Bool, true, false, none, some, List,
  [], ◌∷◌, is_some, eqb, ltb, all, any, arith, Result, ok, err, Error, eq_iff,
}
use flaresolverr_go.Prelude.Assoc.{lookup, insert, erase, lookup-insert, lookup-erase}
use flaresolverr_go.Session.Store.{
  Store, reserve, remove, finish_build, discard, close_session, set_locked, entries, drop_all,
}
use flaresolverr_go.Session.Steps.{Pc, drained, is_at_rest, draining}
use flaresolverr_go.Session.Moves.{
  Move, find, build, add, add_again, find_again, replace, lose, lock, unlock, abandon, drop,
  drop_none, drain, close_drained, close_destroyed, close_abandoned, builds, owes, below, sound_at,
}

abbrev pub within : ℕ → List (String × ℕ) → Bool
within n m = all (λ r. ltb r n) (entries m)

pub lookup-within :
    (n : ℕ) (k : String) (r : ℕ) (m : List (String × ℕ))
    → within n m ≡ true
    → lookup k m ≡ some r
    → r < n
unfolding lookup
lookup-within n k r [] h e = ground arith
lookup-within n k r ((j, v) ∷ m) h e = ground (arith, lookup-within n k r m)

within_mono : (n n' : ℕ) (m : List (String × ℕ)) → n ≤ n' → within n m ≡ true → within n' m ≡ true
within_mono n n' [] l h = refl
within_mono n n' ((k, r) ∷ m) l h = ground (arith, within_mono n n' m l)

within-insert :
    (n n' : ℕ) (k : String) (r : ℕ) (m : List (String × ℕ))
    → n ≤ n'
    → r < n'
    → within n m ≡ true
    → within n' (insert k r m) ≡ true
unfolding insert
within-insert n n' k r [] l lt h = ground arith
within-insert n n' k r ((j, v) ∷ m) l lt h =
    ground (arith, within-insert n n' k r m l lt, within_mono n n' m l)

within-erase :
    (n : ℕ) (k : String) (m : List (String × ℕ)) → within n m ≡ true → within n (erase k m) ≡ true
unfolding erase
within-erase n k [] h = refl
within-erase n k ((j, v) ∷ m) h = ground (arith, within-erase n k m)

all_mono :
    (n n' : ℕ) (rs : List ℕ) → n ≤ n' → all (λ r. ltb r n) rs ≡ true → all (λ r. ltb r n') rs ≡ true
all_mono n n' [] l h = refl
all_mono n n' (r ∷ rs) l h = ground (arith, all_mono n n' rs l)

pub below_mono : (n n' : ℕ) (p : Pc) → n ≤ n' → below n p ≡ true → below n' p ≡ true
below_mono n n' (draining rs) l h = all_mono n n' rs l h
below_mono n n' p l h = ground arith

-- The session is closed, or in the store under its name, or never had a browser.
abbrev pub Fine : Store → ℕ → Type 0
Fine m r =
    ((m.heap r).closed ≡ true)
    ⊎ ((lookup (m.heap r).id m.sessions ≡ some r) ⊎ ((is_some (m.heap r).error ≡ true)))

Fine-remove :
    (m : Store) (id : String) (q r : ℕ)
    → lookup id m.sessions ≡ some q
    → Fine m r
    → Fine (remove id m) r ⊎ (eqb q r ≡ true)
Fine-remove m id q r e f =
    ground (arith, lookup-erase id (m.heap r).id m.sessions, eq_iff id (m.heap r).id)

Fine-reserve :
    (m : Store) (id : String) (now r : ℕ)
    → lookup id m.sessions ≡ none
    → r < m.next
    → Fine m r
    → Fine (reserve id now m) r
unfolding reserve
Fine-reserve m id now r e lt f =
    ground (arith, lookup-insert id (m.heap r).id m.next m.sessions, eq_iff id (m.heap r).id)

Fine-reserve_new : (m : Store) (id : String) (now : ℕ) → Fine (reserve id now m) m.next
unfolding reserve
Fine-reserve_new m id now = ground (arith, lookup-insert id id m.next m.sessions, eq_iff id id)

Fine-close : (m : Store) (q r : ℕ) → Fine m r ⊎ (eqb q r ≡ true) → Fine (close_session q m) r
unfolding close_session
Fine-close m q r f = ground arith

Fine-build :
    (m : Store) (q r : ℕ) (made : Result ℕ)
    → (m.heap q).ready ≡ false
    → sound_at m q ≡ true
    → Fine m r
    → Fine (finish_build q made m) r
unfolding finish_build
Fine-build m q r (ok x) e s f = ground arith
Fine-build m q r (err x) e s f = ground arith

Fine-discard :
    (m : Store) (id : String) (q r : ℕ) (e : Error)
    → (m.heap q).error ≡ some e
    → Fine m r
    → Fine (discard id q m) r
unfolding discard
Fine-discard m id q r e h f =
    ground (arith, lookup-erase id (m.heap r).id m.sessions, eq_iff id (m.heap r).id)

Fine-set_locked : (m : Store) (q r : ℕ) (b : Bool) → Fine m r → Fine (set_locked q b m) r
unfolding set_locked
Fine-set_locked m q r b f = ground arith

pub lookup-any :
    (k : String) (r : ℕ) (m : List (String × ℕ))
    → lookup k m ≡ some r
    → any (λ q. eqb q r) (entries m) ≡ true
unfolding lookup
lookup-any k r [] e = ground arith
lookup-any k r ((j, v) ∷ m) e = ground (arith, lookup-any k r m)

owes-drained : (r : ℕ) (qs : List ℕ) → owes r (drained qs) ≡ any (λ q. eqb q r) qs
owes-drained r [] = refl
owes-drained r (q ∷ qs) = refl

below-drained : (n : ℕ) (qs : List ℕ) → below n (drained qs) ≡ all (λ q. ltb q n) qs
below-drained n [] = refl
below-drained n (q ∷ qs) = refl

pub owes-is_at_rest : (r : ℕ) (p : Pc) → is_at_rest p ≡ true → owes r p ≡ false
owes-is_at_rest r (draining qs) h = ground arith
owes-is_at_rest r p h = ground arith

-- Kept by the store, or owed by the goroutine that moves.
abbrev pub Kept : Store → ℕ → Pc → Type 0
Kept m r p = Fine m r ⊎ (owes r p ≡ true)

Fine-drop_all : (m : Store) (r : ℕ) → Fine m r → Kept (drop_all m) r (drained (entries m.sessions))
Fine-drop_all m r f =
    ground (arith, owes-drained r (entries m.sessions), lookup-any (m.heap r).id r m.sessions)

Kept-Fine : (m : Store) (r : ℕ) (p : Pc) → is_at_rest p ≡ true → Kept m r p → Fine m r
Kept-Fine m r p h (inl f) = f
Kept-Fine m r p h (inr o) = ground (arith, owes-is_at_rest r p h)

next-close : (m : Store) (q : ℕ) → (close_session q m).next ≡ m.next
unfolding close_session
next-close m q = ground arith

next-reserve : (m : Store) (id : String) (now : ℕ) → (reserve id now m).next ≡ suc m.next
unfolding reserve
next-reserve m id now = refl

-- A move keeps what it found kept.
pub Move-Kept :
    {m : Store} {p : Pc} {m' : Store} {p' : Pc} (r : ℕ)
    → Move m p m' p'
    → ((q : ℕ) → builds p ≡ some q → (m.heap q).ready ≡ false)
    → ((q : ℕ) → sound_at m q ≡ true)
    → r < m.next
    → Kept m r p
    → Kept m' r p'
Move-Kept {m} {p} r (find id q c e) b s lt k = inl (Kept-Fine m r p c k)
Move-Kept {m} {p} r (add id now c e) b s lt k =
    inl (Fine-reserve m id now r e lt (Kept-Fine m r p c k))
Move-Kept {m} {p} r (replace id now q c e) b s lt k = Fine-remove m id q r e (Kept-Fine m r p c k)
Move-Kept {m} r (find_again id now q x c e) b s lt k = inl (Fine-close m q r k)
Move-Kept {m} r (add_again id now q c e) b s lt k =
    inl (Fine-reserve (close_session q m) id now r e (rw (next-close m q) lt) (Fine-close m q r k))
Move-Kept {m} r (build id q made) b s lt k =
    inl (Fine-build m q r made (b q refl) (s q) (ground arith))
Move-Kept {m} r (lose id q e h) b s lt k = inl (Fine-discard m id q r e h (ground arith))
Move-Kept {m} r (abandon id q e) b s lt k = ground arith
Move-Kept {m} r (close_abandoned q c) b s lt k = inl (Fine-close m q r k)
Move-Kept {m} r (close_destroyed q c) b s lt k = inl (Fine-close m q r k)
Move-Kept {m} {p} r (drop id q c e) b s lt k = Fine-remove m id q r e (Kept-Fine m r p c k)
Move-Kept {m} {p} r (drain c) b s lt k = Fine-drop_all m r (Kept-Fine m r p c k)
Move-Kept {m} r (close_drained q qs c) b s lt k =
    ground (arith, owes-drained r qs, Fine-close m q r)
Move-Kept {m} r (lock q fresh l c) b s lt k = inl (Fine-set_locked m q r true (ground arith))
Move-Kept {m} r (unlock q) b s lt k = inl (Fine-set_locked m q r false (ground arith))
Move-Kept {m} {p} r (drop_none c) b s lt k = inl (Kept-Fine m r p c k)
Move-Kept {m} {p} r mv b s lt k = ground arith

-- A session that a move makes is in the store.
pub Move-Fine_new :
    {m : Store} {p : Pc} {m' : Store} {p' : Pc} (r : ℕ)
    → Move m p m' p'
    → m.next ≤ r
    → r < m'.next
    → Fine m' r
unfolding finish_build discard set_locked
Move-Fine_new {m} r (add id now c e) ge lt =
    subst (Fine (reserve id now m)) (omega (arith, next-reserve m id now))
      (Fine-reserve_new m id now)
Move-Fine_new {m} r (add_again id now q c e) ge lt =
    subst (Fine (reserve id now (close_session q m)))
      (omega (arith, next-reserve (close_session q m) id now, next-close m q))
      (Fine-reserve_new (close_session q m) id now)
Move-Fine_new {m} r (close_drained q qs c) ge lt = absurd (omega (arith, next-close m q))
Move-Fine_new {m} r (close_abandoned q c) ge lt = absurd (omega (arith, next-close m q))
Move-Fine_new {m} r (close_destroyed q c) ge lt = absurd (omega (arith, next-close m q))
Move-Fine_new {m} r (find_again id now q x c e) ge lt = absurd (omega (arith, next-close m q))
Move-Fine_new {m} r mv ge lt = ground arith

-- The entries and the goroutine name sessions that have been made.
pub Move-within :
    {m : Store} {p : Pc} {m' : Store} {p' : Pc}
    → Move m p m' p'
    → within m.next m.sessions ≡ true
    → within m'.next m'.sessions ≡ true
unfolding finish_build discard set_locked close_session reserve
Move-within {m} (add id now c e) w =
    within-insert m.next (suc m.next) id m.next m.sessions (omega arith) (omega arith) w
Move-within {m} (add_again id now q c e) w =
    ground (arith, within-insert m.next (suc m.next) id m.next m.sessions)
Move-within {m} (replace id now q c e) w = within-erase m.next id m.sessions w
Move-within {m} (drop id q c e) w = within-erase m.next id m.sessions w
Move-within {m} (lose id q e h) w = ground (arith, within-erase m.next id m.sessions w)
Move-within {m} mv w = ground arith

pub Move-below :
    {m : Store} {p : Pc} {m' : Store} {p' : Pc}
    → Move m p m' p'
    → within m.next m.sessions ≡ true
    → below m.next p ≡ true
    → below m'.next p' ≡ true
unfolding finish_build discard set_locked close_session reserve
Move-below {m} (find id q c e) w b = ground (arith, lookup-within m.next id q m.sessions w)
Move-below {m} (replace id now q c e) w b = ground (arith, lookup-within m.next id q m.sessions w)
Move-below {m} (drop id q c e) w b = ground (arith, lookup-within m.next id q m.sessions w)
Move-below {m} (find_again id now q x c e) w b =
    ground (arith, lookup-within m.next id x m.sessions w)
Move-below {m} (drain c) w b = ground (arith, below-drained m.next (entries m.sessions))
Move-below {m} (close_drained q qs c) w b = ground (arith, below-drained m.next qs)
Move-below {m} mv w b = ground arith
