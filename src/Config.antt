-- ===== src/Config.antt =====
-- config.go, backupstore.go and util.go: the files of a volume, their paths, and their content.
pub mod Paths
pub mod Separate
pub mod Store
pub mod Keeps
pub mod Holding
