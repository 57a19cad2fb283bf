-- ===== src/Sweep.antt =====
-- The sweep worker (internal/sweep/sweep.go).
pub mod Env
pub mod Transfer
pub mod Reconcile
pub mod Alone
pub mod Kept
pub mod Single
pub mod Covered
pub mod Tests
