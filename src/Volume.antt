-- ===== src/Volume.antt =====
-- src/volume.rs: archives in several volumes.
pub mod Concat
pub mod Fields
pub mod Directory
pub mod Join
pub mod Members
mod Tests
