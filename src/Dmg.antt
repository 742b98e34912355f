-- ===== src/Dmg.antt =====
-- src/format/dmg.rs: disk images.
pub mod Adc
pub mod Fields
pub mod Plist
pub mod Image
pub mod Volumes
mod Tests
