-- ===== src/Sysinfo.antt =====
-- internal/sysinfo/sysinfo.go: sizes for `dockup ps`, the rows of tasklist and of ps.
-- `FormatSize` is exact below 2 ^ 53 bytes, where float64 holds every count.
pub mod Size
pub mod Csv
pub mod Tasklist
pub mod Rss
pub mod Dir
