-- ===== src/Outbox.antt =====
-- The dispatcher of the outbox (internal/outbox/outbox.go).
pub mod Deliver
pub mod Delivery
pub mod Counted
pub mod Tests
