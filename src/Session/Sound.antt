-- ===== src/Session/Sound.antt =====
-- A session is what its construction left, until it is closed once.
use flaresolverr_go.Prelude.{
  ℕ, ◌<◌, ◌≤◌, ◌≡◌, refl, String, true, false, none, some, arith, Result, ok, err,
}
use flaresolverr_go.Session.Store.{Store, reserve, finish_build, discard, close_session, set_locked}
use flaresolverr_go.Session.Steps.{Pc, can_close}
use flaresolverr_go.Session.Moves.{
  Move, build, add, add_again, find_again, lock, reuse, publish, abandon, close_drained,
  close_destroyed, close_abandoned, builds, holds, settled, usable, below, sound_at,
}

sound-reserve :
    (m : Store) (id : String) (now r : ℕ)
    → m.closes m.next ≡ 0
    → sound_at m r ≡ true
    → sound_at (reserve id now m) r ≡ true
unfolding reserve
sound-reserve m id now r z h = ground arith

sound-build :
    (m : Store) (q r : ℕ) (made : Result ℕ)
    → (m.heap q).ready ≡ false
    → sound_at m r ≡ true
    → sound_at (finish_build q made m) r ≡ true
unfolding finish_build
sound-build m q r (ok b) z h = ground arith
sound-build m q r (err b) z h = ground arith

sound-close :
    (m : Store) (q r : ℕ)
    → can_close (m.heap q) ≡ true
    → sound_at m r ≡ true
    → sound_at (close_session q m) r ≡ true
unfolding close_session
sound-close m q r z h = ground arith

closes-close :
    (m : Store) (q r : ℕ)
    → q < m.next
    → m.closes m.next ≡ 0
    → ((close_session q m).closes (close_session q m).next ≡ 0)
unfolding close_session
closes-close m q r lt z = ground arith

pub Move-sound :
    {m : Store} {p : Pc} {m' : Store} {p' : Pc} (r : ℕ)
    → Move m p m' p'
    → ((q : ℕ) → builds p ≡ some q → (m.heap q).ready ≡ false)
    → m.closes m.next ≡ 0
    → below m.next p ≡ true
    → sound_at m r ≡ true
    → sound_at m' r ≡ true
unfolding discard set_locked
Move-sound {m} r (build id q made) b u k h = sound-build m q r made (b q refl) h
Move-sound {m} r (add id now c e) b u k h = sound-reserve m id now r u h
Move-sound {m} r (find_again id now q x c e) b u k h = sound-close m q r c h
Move-sound {m} r (add_again id now q c e) b u k h =
    sound-reserve (close_session q m) id now r (closes-close m q r (ground arith) u)
      (sound-close m q r c h)
Move-sound {m} r (close_abandoned q c) b u k h = sound-close m q r c h
Move-sound {m} r (close_destroyed q c) b u k h = sound-close m q r c h
Move-sound {m} r (close_drained q qs c) b u k h = sound-close m q r c h
Move-sound r (lock q fresh l c) b u k h = ground arith
Move-sound r mv b u k h = ground arith

pub Move-unused :
    {m : Store} {p : Pc} {m' : Store} {p' : Pc} (r : ℕ)
    → Move m p m' p'
    → below m.next p ≡ true
    → m'.next ≤ r
    → (m.next ≤ r → m.closes r ≡ 0)
    → m'.closes r ≡ 0
unfolding reserve finish_build discard close_session set_locked
Move-unused r (build id q (ok x)) b u k = ground arith
Move-unused r mv b u k = ground arith

-- What the goroutine itself comes to rely on.
pub Move-builds :
    {m : Store} {p : Pc} {m' : Store} {p' : Pc} (r : ℕ)
    → Move m p m' p'
    → builds p' ≡ some r
    → ((m'.heap r).ready ≡ false) × (m.next ≤ r)
unfolding reserve finish_build discard close_session set_locked
Move-builds r (build id q (ok x)) b = ground arith
Move-builds r mv b = ground arith

pub Move-settled :
    {m : Store} {p : Pc} {m' : Store} {p' : Pc} (r : ℕ)
    → Move m p m' p'
    → ((q : ℕ) → settled p ≡ some q → (m.heap q).ready ≡ true)
    → settled p' ≡ some r
    → (m'.heap r).ready ≡ true
unfolding reserve finish_build discard close_session set_locked
Move-settled r (build id q (ok x)) s b = ground arith
Move-settled r (build id q (err x)) s b = ground arith
Move-settled r (publish id q e) s b = ground (arith, s q refl)
Move-settled r (abandon id q e) s b = ground (arith, s q refl)
Move-settled r (lock q fresh l c) s b = ground (arith, s q refl)
Move-settled r (reuse q x y) s b = ground arith
Move-settled r mv s b = ground arith

pub Move-usable :
    {m : Store} {p : Pc} {m' : Store} {p' : Pc} (r : ℕ)
    → Move m p m' p'
    → ((q : ℕ) → usable p ≡ some q → (m.heap q).error ≡ none)
    → usable p' ≡ some r
    → (m'.heap r).error ≡ none
unfolding reserve finish_build discard close_session set_locked
Move-usable r (publish id q e) s b = ground arith
Move-usable r (lock q fresh l c) s b = ground (arith, s q refl)
Move-usable r (reuse q x y) s b = ground arith
Move-usable r mv s b = ground arith

pub Move-holds :
    {m : Store} {p : Pc} {m' : Store} {p' : Pc} (r : ℕ)
    → Move m p m' p'
    → holds p' ≡ some r
    → ((m'.heap r).locked ≡ true) × ((m.heap r).locked ≡ false)
unfolding reserve finish_build discard close_session set_locked
Move-holds r (lock q fresh l c) b = ground arith
Move-holds r mv b = ground arith
