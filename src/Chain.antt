-- ===== src/Chain.antt =====
-- The node gateway (internal/chain).
pub mod TxInfo
pub mod Failure
pub mod Resources
pub mod Gateway
pub mod Verdicts
pub mod Cooldown
pub mod Parked
pub mod Tests
