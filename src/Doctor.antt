-- ===== src/Doctor.antt =====
-- internal/doctor/doctor.go.
pub mod WslMemory
pub mod Reconcile
pub mod Checks
pub mod Run
pub mod Examines
pub mod Repairs
