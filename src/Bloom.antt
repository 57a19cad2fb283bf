-- ===== src/Bloom.antt =====
-- The in-process address filter (internal/bloom/bloom.go), which decides without the database
-- whether an address may be one of ours.
pub mod Filter
pub mod Sound
pub mod Tests
