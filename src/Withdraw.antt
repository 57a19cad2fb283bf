-- ===== src/Withdraw.antt =====
-- The withdrawal worker (internal/withdraw/worker.go).
pub mod Env
pub mod Messages
pub mod Settle
pub mod Risk
pub mod Funds
pub mod Execute
pub mod Reconcile
pub mod Steps
pub mod History
pub mod Checks
pub mod Transfer
pub mod Confirm
pub mod Daily
pub mod Tests
pub mod PaidTests
