-- ===== src/Service.antt =====
-- The orchestration layer: internal/bt/service.go and its siblings.
pub mod Intake
pub mod Backup
pub mod Queue
pub mod Restore
pub mod Status
pub mod History
