-- ===== src/Services.antt =====
-- pkg/services: the operations behind the HTTP interface.
pub mod Bots
pub mod Failure
pub mod Fallback
pub mod Parts
pub mod Stream
pub mod Upload
mod Tests
