-- ===== src/Tgc.antt =====
-- internal/tgc: the clients and the bots that talk to Telegram.
pub mod AuthRecovery
pub mod ClientCache
pub mod Deletion
pub mod Helpers
pub mod Run
pub mod Workers
mod Tests
