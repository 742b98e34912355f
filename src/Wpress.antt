-- ===== src/Wpress.antt =====
-- src/format/wpress.rs: site dumps of the WordPress plugin.
pub mod Fields
pub mod Walk
pub mod Bounds
pub mod Reading
mod Tests
