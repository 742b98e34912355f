-- ===== src/Wim.antt =====
-- src/format/wim.rs: reading `.wim`, `.esd` and `.swm` images.
mod Tests
pub mod Fields
pub mod Chunks
pub mod Dentry
pub mod Tree
pub mod Opening
