-- ===== src/Blocks.antt =====
-- Block lists of a backup.
pub mod Mapping
pub mod Merge
pub mod Sort
pub mod Restore
