-- ===== src/Track.antt =====
-- Property tracks: rows of bars over breaths (domain/file/storage/storage.rs and
-- domain/painter-document/properties).
pub mod Block
pub mod Mode
pub mod Ids
pub mod Retile
pub mod Tiling
pub mod Edit
mod Tests
