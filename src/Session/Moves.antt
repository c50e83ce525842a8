-- ===== src/Session/Moves.antt =====
-- What a goroutine is about to do, and the ways in which it goes on.
use flaresolverr_go.Prelude.{
  ℕ, ◌≡◌, refl, inl, inr, String, Bool, true, false, ◌&&◌, ◌||◌, not, Option, none, some, List, [],
  ◌∷◌, Bool-cases, subst, is_some, is_none, eqb, ltb, all, any, if◌then◌else◌, Result, Error,
}
use flaresolverr_go.Prelude.Assoc.{lookup}
use flaresolverr_go.Session.Store.{
  Session, Store, reserve, remove, finish_build, discard, close_session, set_locked, entries,
  drop_all, session_closed,
}
use flaresolverr_go.Session.Steps.{
  Pc, idle, replacing, waiting, building, publishing, abandoning, created, failed, destroying,
  destroyed, draining, resolving, resolved, is_at_rest, Input, creates, destroys, drains, resolves,
  proceeds, advance, call, begin_create, begin_destroy, begin_resolve, look_up_or_reserve,
  published, can_close, drained, waited,
}

abbrev pub builds : Pc → Option ℕ
builds (building id r) = some r
builds _ = none

abbrev pub holds : Pc → Option ℕ
holds (resolving r) = some r
holds _ = none

-- The goroutine is past the construction of this session.
abbrev pub settled : Pc → Option ℕ
settled (publishing id r) = some r
settled (abandoning r) = some r
settled (created r fresh) = some r
settled (resolving r) = some r
settled _ = none

-- The goroutine has seen that the construction went well.
abbrev pub usable : Pc → Option ℕ
usable (created r fresh) = some r
usable (resolving r) = some r
usable _ = none

-- The goroutine is about to close this session.
abbrev pub owes : ℕ → Pc → Bool
owes r (replacing id now q) = eqb q r
owes r (abandoning q) = eqb q r
owes r (destroying q) = eqb q r
owes r (draining qs) = any (λ q. eqb q r) qs
owes r _ = false

-- The sessions that the goroutine names have been made.
abbrev pub below : ℕ → Pc → Bool
below n (replacing id now q) = ltb q n
below n (waiting q) = ltb q n
below n (building id q) = ltb q n
below n (publishing id q) = ltb q n
below n (abandoning q) = ltb q n
below n (created q fresh) = ltb q n
below n (destroying q) = ltb q n
below n (draining qs) = all (λ q. ltb q n) qs
below n (resolving q) = ltb q n
below n _ = true

-- A session before, and after, its construction; Close is called once, when it is closed.
abbrev pub is_sound : Session → ℕ → Bool
is_sound s closes =
    (s.ready || (is_none s.error && is_none s.browser && not s.closed))
    && (not s.ready
        || (is_some s.error && is_none s.browser)
        || (is_none s.error && is_some s.browser))
    && (not s.locked || not s.closed)
    && eqb closes (if s.closed && is_some s.browser then 1 else 0)

abbrev pub sound_at : Store → ℕ → Bool
sound_at m r = is_sound (m.heap r) (m.closes r)

-- The ways to go on, each with the region of code that it runs.
pub data Move (m : Store) : Pc → Store → Pc → Type 0 where
  find :
      {p : Pc} (id : String) (r : ℕ)
      → is_at_rest p ≡ true
      → lookup id m.sessions ≡ some r
      → Move m p m (waiting r)
  add :
      {p : Pc} (id : String) (now : ℕ)
      → is_at_rest p ≡ true
      → lookup id m.sessions ≡ none
      → Move m p (reserve id now m) (building id m.next)
  replace :
      {p : Pc} (id : String) (now r : ℕ)
      → is_at_rest p ≡ true
      → lookup id m.sessions ≡ some r
      → Move m p (remove id m) (replacing id now r)
  find_again :
      (id : String) (now q r : ℕ)
      → can_close (m.heap q) ≡ true
      → lookup id (close_session q m).sessions ≡ some r
      → Move m (replacing id now q) (close_session q m) (waiting r)
  add_again :
      (id : String) (now q : ℕ)
      → can_close (m.heap q) ≡ true
      → lookup id (close_session q m).sessions ≡ none
      → Move m
          (replacing id now q)
          (reserve id now (close_session q m))
          (building id (close_session q m).next)
  reuse :
      (r : ℕ)
      → (m.heap r).ready ≡ true
      → (m.heap r).error ≡ none
      → Move m (waiting r) m (created r false)
  give_up : (r : ℕ) (e : Error) → Move m (waiting r) m (failed e)
  build :
      (id : String) (r : ℕ) (made : Result ℕ)
      → Move m (building id r) (finish_build r made m) (publishing id r)
  lose :
      (id : String) (r : ℕ) (e : Error)
      → (m.heap r).error ≡ some e
      → Move m (publishing id r) (discard id r m) (failed e)
  publish :
      (id : String) (r : ℕ) → (m.heap r).error ≡ none → Move m (publishing id r) m (created r true)
  abandon :
      (id : String) (r : ℕ) → (m.heap r).error ≡ none → Move m (publishing id r) m (abandoning r)
  close_abandoned :
      (r : ℕ)
      → can_close (m.heap r) ≡ true
      → Move m (abandoning r) (close_session r m) (failed session_closed)
  drop :
      {p : Pc} (id : String) (r : ℕ)
      → is_at_rest p ≡ true
      → lookup id m.sessions ≡ some r
      → Move m p (remove id m) (destroying r)
  drop_none : {p : Pc} → is_at_rest p ≡ true → Move m p m (destroyed false)
  close_destroyed :
      (r : ℕ)
      → can_close (m.heap r) ≡ true
      → Move m (destroying r) (close_session r m) (destroyed true)
  drain : {p : Pc} → is_at_rest p ≡ true → Move m p (drop_all m) (drained (entries m.sessions))
  drain_end : Move m (draining []) m (destroyed true)
  close_drained :
      (r : ℕ) (rs : List ℕ)
      → can_close (m.heap r) ≡ true
      → Move m (draining (r ∷ rs)) (close_session r m) (drained rs)
  lock :
      (r : ℕ) (fresh : Bool)
      → (m.heap r).locked ≡ false
      → (m.heap r).closed ≡ false
      → Move m (created r fresh) (set_locked r true m) (resolving r)
  refuse :
      (r : ℕ) (fresh : Bool)
      → (m.heap r).closed ≡ true
      → Move m (created r fresh) m (failed session_closed)
  unlock : (r : ℕ) → Move m (resolving r) (set_locked r false m) resolved

abbrev Moves : Store → Pc → Option (Store × Pc) → Type 0
Moves m p none = Unit
Moves m p (some (m', p')) = Move m p m' p'

if_Moves :
    (m : Store) (p : Pc) (b : Bool) (o : Option (Store × Pc))
    → (b ≡ true → Moves m p o)
    → Moves m p (if b then o else none)
if_Moves m p true o h = h refl
if_Moves m p false o h = tt

look_up-Moves :
    (m : Store) (p : Pc) (id : String) (now : ℕ) (o : Option ℕ)
    → is_at_rest p ≡ true
    → lookup id m.sessions ≡ o
    → Moves m p (some (look_up_or_reserve id now m o))
unfolding look_up_or_reserve
look_up-Moves m p id now none h e = add id now h e
look_up-Moves m p id now (some r) h e = find id r h e

begin_create-Moves :
    (m : Store) (p : Pc) (id : String) (now : ℕ) (force : Bool) (o : Option ℕ)
    → is_at_rest p ≡ true
    → lookup id m.sessions ≡ o
    → Moves m p (some (begin_create id now m force o))
unfolding begin_create
begin_create-Moves m p id now true none h e = add id now h e
begin_create-Moves m p id now true (some r) h e = replace id now r h e
begin_create-Moves m p id now false none h e = add id now h e
begin_create-Moves m p id now false (some r) h e = find id r h e

begin_destroy-Moves :
    (m : Store) (p : Pc) (id : String) (o : Option ℕ)
    → is_at_rest p ≡ true
    → lookup id m.sessions ≡ o
    → Moves m p (some (begin_destroy id m o))
unfolding begin_destroy
begin_destroy-Moves m p id none h e = drop_none h
begin_destroy-Moves m p id (some r) h e = drop id r h e

call-Moves : (input : Input) (m : Store) (p : Pc) → is_at_rest p ≡ true → Moves m p (call input m)
unfolding call
call-Moves (creates id force now) m p h = begin_create-Moves m p id now force _ h refl
call-Moves (destroys id) m p h = begin_destroy-Moves m p id _ h refl
call-Moves drains m p h = drain h
call-Moves resolves m p h = tt
call-Moves (proceeds made) m p h = tt

replaced-Moves :
    (m : Store) (id : String) (now q : ℕ) (o : Option ℕ)
    → can_close (m.heap q) ≡ true
    → lookup id (close_session q m).sessions ≡ o
    → Moves m (replacing id now q) (some (look_up_or_reserve id now (close_session q m) o))
unfolding look_up_or_reserve
replaced-Moves m id now q none c e = add_again id now q c e
replaced-Moves m id now q (some r) c e = find_again id now q r c e

waited-Moves :
    (m : Store) (r : ℕ) (o : Option Error)
    → (m.heap r).ready ≡ true
    → (m.heap r).error ≡ o
    → Moves m (waiting r) (some (m, waited r o))
waited-Moves m r none h e = reuse r h e
waited-Moves m r (some x) h e = give_up r x

published-Moves :
    (m : Store) (id : String) (r : ℕ) (o : Option Error)
    → (m.heap r).error ≡ o
    → Moves m (publishing id r) (some (published id r m o))
published-Moves m id r (some x) e = lose id r x e
published-Moves m id r none e = elim (Bool-cases (is_some (lookup id m.sessions))) [
  | inl h ↦ rw h (publish id r e)
  | inr h ↦ rw h (abandon id r e)
]

resolve-Moves : (m : Store) (r : ℕ) (fresh : Bool) → Moves m (created r fresh) (begin_resolve r m)
unfolding begin_resolve
resolve-Moves m r fresh = elim (Bool-cases (m.heap r).locked) [
  | inl h ↦ rw h tt
  | inr h ↦ elim (Bool-cases (m.heap r).closed) [
    | inl c ↦ rw (h, c) (refuse r fresh c)
    | inr c ↦ rw (h, c) (lock r fresh h c)
  ]
]

advance-Moves : (input : Input) (m : Store) (p : Pc) → Moves m p (advance input m p)
unfolding advance call
advance-Moves (proceeds made) m (replacing id now r) =
    if_Moves m _ _ _ (λ c. replaced-Moves m id now r _ c refl)
advance-Moves (proceeds made) m (waiting r) = if_Moves m _ _ _ (λ c. waited-Moves m r _ c refl)
advance-Moves (proceeds made) m (building id r) = build id r made
advance-Moves (proceeds made) m (publishing id r) = published-Moves m id r _ refl
advance-Moves (proceeds made) m (abandoning r) =
    if_Moves m (abandoning r) (can_close (m.heap r))
      (some (close_session r m, failed session_closed)) (λ c. close_abandoned r c)
advance-Moves (proceeds made) m (destroying r) =
    if_Moves m (destroying r) (can_close (m.heap r)) (some (close_session r m, destroyed true))
      (λ c. close_destroyed r c)
advance-Moves (proceeds made) m (draining []) = drain_end
advance-Moves (proceeds made) m (draining (r ∷ rs)) =
    if_Moves m (draining (r ∷ rs)) (can_close (m.heap r)) (some (close_session r m, drained rs))
      (λ c. close_drained r rs c)
advance-Moves (proceeds made) m (resolving r) = unlock r
advance-Moves resolves m (created r fresh) = resolve-Moves m r fresh
advance-Moves input m idle = call-Moves input m idle refl
advance-Moves input m (created r fresh) = call-Moves input m (created r fresh) refl
advance-Moves input m (failed e) = call-Moves input m (failed e) refl
advance-Moves input m (destroyed b) = call-Moves input m (destroyed b) refl
advance-Moves input m resolved = call-Moves input m resolved refl
advance-Moves input m p = tt

-- Every step is one of the moves.
pub advance-Move :
    (input : Input) (m : Store) (p : Pc) (m' : Store) (p' : Pc)
    → advance input m p ≡ some (m', p')
    → Move m p m' p'
advance-Move input m p m' p' e = subst (Moves m p) e (advance-Moves input m p)
