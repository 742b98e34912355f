-- ===== src/Warc.antt =====
-- src/format/warc.rs: web archives. The `warc` crate gives the records.
pub mod Names
pub mod Dates
pub mod Bodies
pub mod Safety
pub mod Places
pub mod Reading
mod Tests
