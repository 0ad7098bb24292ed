-- ===== src/Lock.antt =====
-- lock.go: file locks in the backup store.
pub mod Priority
pub mod Protocol
pub mod Ops
pub mod Keeps
pub mod Hold
