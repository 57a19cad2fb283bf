-- ===== src/Tron.antt =====
-- Addresses, transactions and call data of the chain (internal/tron).
pub mod Hex
pub mod Base58
pub mod Crypto
pub mod Address
pub mod Tx
