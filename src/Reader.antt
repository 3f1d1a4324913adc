-- ===== src/Reader.antt =====
-- internal/reader: reading a byte range of a file that is stored as a list of parts.
pub mod Linear
pub mod Location
pub mod Multi
pub mod Ranges
pub mod TgReader
mod Tests
