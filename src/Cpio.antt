-- ===== src/Cpio.antt =====
-- src/format/cpio.rs: the three ASCII variants of cpio.
pub mod Fields
pub mod Walk
pub mod Listing
pub mod Numbers
pub mod Writer
pub mod RoundTrip
pub mod Rounds
pub mod Checksum
pub mod Reading
pub mod Bounds
mod Tests
