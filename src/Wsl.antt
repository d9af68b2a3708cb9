-- ===== src/Wsl.antt =====
-- internal/wsl/wsl.go.
pub mod Utf16
pub mod Listing
pub mod Names
pub mod Retry
pub mod Command
