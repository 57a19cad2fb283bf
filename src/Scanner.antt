-- ===== src/Scanner.antt =====
-- The deposit scanner (internal/scanner/scanner.go).
pub mod Env
pub mod Decode
pub mod Blocks
pub mod Settle
pub mod Reorg
pub mod Tick
pub mod Credits
pub mod Steps
pub mod Redrawn
pub mod Inserted
pub mod Replay
pub mod ForkPoint
pub mod Fork
pub mod Settled
pub mod Told
pub mod Events
pub mod Lost
pub mod Tests
