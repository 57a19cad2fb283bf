-- ===== src/Api.antt =====
-- The API server (internal/api).
pub mod Amounts
pub mod RoundTrip
pub mod Fractions
pub mod AmountTrip
pub mod Orders
pub mod Placed
pub mod Tests
