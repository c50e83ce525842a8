-- ===== src/Session.antt =====
-- server/sessions.go and server/session_id.go: the session store. Store holds the data and the
-- regions of code that run under one lock, Steps the goroutines that interleave them, Calls a call
-- that runs alone; the others prove.
pub mod Store
pub mod Steps
pub mod Calls
pub mod Moves
pub mod Effects
pub mod Sound
pub mod Kept
pub mod Invariant
pub mod Safety
