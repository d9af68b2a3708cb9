-- ===== src/Cli.antt =====
-- cmd/dockup/main.go: what the command line is read as, and what each command does.
pub mod Flags
pub mod Interrupt
pub mod Options
pub mod Commands
pub mod Context
pub mod Prune
pub mod Ps
pub mod Serving
pub mod Log
pub mod Daemons
pub mod Remote
pub mod Console
pub mod Dispatch
