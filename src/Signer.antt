-- ===== src/Signer.antt =====
-- The sign service (internal/signer/signer.go, and Sign of internal/signer/server.go).
pub mod Policy
pub mod Service
pub mod Signing
pub mod Guards
pub mod Tests
