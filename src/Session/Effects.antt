-- ===== src/Session/Effects.antt =====
-- What a move of one goroutine leaves as it was.
use flaresolverr_go.Prelude.{ℕ, ◌<◌, ◌≤◌, ◌≡◌, refl, ◌≢◌, true, false, some, arith, ok, err}
use flaresolverr_go.Session.Store.{Store, reserve, finish_build, discard, close_session, set_locked}
use flaresolverr_go.Session.Steps.{Pc}
use flaresolverr_go.Session.Moves.{Move, find, build, builds, holds}

pub Move-next : {m : Store} {p : Pc} {m' : Store} {p' : Pc} → Move m p m' p' → m.next ≤ m'.next
unfolding reserve finish_build discard close_session set_locked
Move-next (find id r h e) = omega arith
Move-next mv = ground arith

-- What a finished construction left stays.
pub Move-ready :
    {m : Store} {p : Pc} {m' : Store} {p' : Pc} (r : ℕ)
    → Move m p m' p'
    → r < m.next
    → (m.heap r).ready ≡ true
    → ((q : ℕ) → builds p ≡ some q → (m.heap q).ready ≡ false)
    → ((m'.heap r).ready ≡ true) × ((m'.heap r).error ≡ (m.heap r).error)
unfolding reserve finish_build discard close_session set_locked
Move-ready r (build id q (ok x)) lt h b = ground (arith, b q refl)
Move-ready r (build id q (err x)) lt h b = ground (arith, b q refl)
Move-ready r mv lt h b = ground arith

pub Move-unready :
    {m : Store} {p : Pc} {m' : Store} {p' : Pc} (r : ℕ)
    → Move m p m' p'
    → r < m.next
    → (m.heap r).ready ≡ false
    → builds p ≢ some r
    → (m'.heap r).ready ≡ false
unfolding reserve finish_build discard close_session set_locked
Move-unready r (find id q c e) lt h b = h
Move-unready r mv lt h b = ground arith

pub Move-locked :
    {m : Store} {p : Pc} {m' : Store} {p' : Pc} (r : ℕ)
    → Move m p m' p'
    → r < m.next
    → (m.heap r).locked ≡ true
    → holds p ≢ some r
    → (m'.heap r).locked ≡ true
unfolding reserve finish_build discard close_session set_locked
Move-locked r (find id q c e) lt h b = h
Move-locked r (build id q (ok x)) lt h b = ground arith
Move-locked r (build id q (err x)) lt h b = ground arith
Move-locked r mv lt h b = ground arith

pub Move-unlocked :
    {m : Store} {p : Pc} {m' : Store} {p' : Pc} (r : ℕ)
    → Move m p m' p'
    → (m.heap r).locked ≡ false
    → holds p' ≢ some r
    → (m'.heap r).locked ≡ false
unfolding reserve finish_build discard close_session set_locked
Move-unlocked r (find id q c e) h b = h
Move-unlocked r (build id q (ok x)) h b = ground arith
Move-unlocked r (build id q (err x)) h b = ground arith
Move-unlocked r mv h b = ground arith
