-- ===== src/Accounts.antt =====
-- What the treasury service tells a user: services/treasury/src/account_activity.rs,
-- account_balance.rs, account_withdrawal_routing.rs and pool_manager.rs.
pub mod Activity
pub mod Rows
pub mod Entries
pub mod Statements
pub mod Balance
pub mod Cache
pub mod Unreachable
pub mod Routing
pub mod Pools
