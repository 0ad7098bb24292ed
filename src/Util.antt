-- ===== src/Util.antt =====
-- util/util.go: names and lists of names.
pub mod Names
pub mod Unordered
