-- ===== src/Watcher.antt =====
-- The watcher of services/treasury/src/watcher.rs: the independent check of every release.
pub mod Events
pub mod Verify
pub mod Verdicts
pub mod Pauses
pub mod Parsing
