-- ===== src/Staging.antt =====
-- The staging area: internal/staging.
pub mod Operation
pub mod Store
pub mod Memory
pub mod Disk
pub mod Area
