-- ===== src/Setup.antt =====
-- internal/setup/setup.go: what the install sequence and the uninstall do and return, without what
-- they print. The goroutine that aborts on Ctrl+C is in Setup/Interrupt.
pub mod Uninstall
pub mod Install
pub mod Interrupt
pub mod Piped
pub mod DryRun
pub mod Trusted
pub mod ImagePast
pub mod EnginePast
pub mod StepsPast
pub mod Returns
pub mod Engine
