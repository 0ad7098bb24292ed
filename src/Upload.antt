-- ===== src/Upload.antt =====
-- The upload of a backup (deltablock.go): the workers' shared table and progress, and the blocks.
pub mod Table
pub mod Laws
pub mod Store
pub mod Stored
pub mod Perform
pub mod Create
pub mod Refers
pub mod Saved
