-- ===== src/Gc.antt =====
-- DeleteDeltaBlockBackup of deltablock.go: a backup is removed, and then the blocks that no other
-- backup refers to.
pub mod Infos
pub mod Entries
pub mod Delete
pub mod Safety
