-- ===== src/Images.antt =====
-- backupbackingimage/ and common/: backups of backing images. All images share one pool of blocks
-- and one lock.
pub mod Store
pub mod Urls
pub mod Upload
pub mod Restore
pub mod Delete
pub mod Separate
pub mod Safety
