-- ===== src/Fs.antt =====
-- The real file system: internal/fs.
pub mod Glob
pub mod Ignore
pub mod Os
