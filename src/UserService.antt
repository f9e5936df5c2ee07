-- ===== src/UserService.antt =====
-- The user service, services/user-service/src.
pub mod Validation
pub mod Tables
pub mod Queries
pub mod Replies
pub mod Handlers
pub mod Steps
pub mod Active
