-- ===== src/Database.antt =====
-- The metadata store: internal/database.
pub mod Like
pub mod Rows
pub mod Tables
pub mod Queries
pub mod Sqlite
pub mod Recording
pub mod Consolidation
pub mod Search
pub mod Keeping
pub mod Migrations
