-- ===== src/Restore.antt =====
-- internal/restore/restore.go.
pub mod Removal
pub mod Light
pub mod Full
