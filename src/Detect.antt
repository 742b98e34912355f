-- ===== src/Detect.antt =====
-- src/detect.rs: opening a file, whatever it is.
pub mod Copy
pub mod Compressors
pub mod Suffixes
pub mod Magics
pub mod Choice
pub mod Single
pub mod Opening
pub mod Laws
mod Tests
