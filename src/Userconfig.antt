-- ===== src/Userconfig.antt =====
-- internal/userconfig/userconfig.go: config.json and what is read from it.
pub mod Paths
pub mod File
