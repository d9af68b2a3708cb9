-- ===== src/Pstable.antt =====
-- internal/pstable/pstable.go: the table of `dockup ps`, with the colours of internal/ui/ui.go.
pub mod Ansi
pub mod Row
