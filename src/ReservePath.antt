-- ===== src/ReservePath.antt =====
-- The planner, the relayer and the watcher of services/treasury/src/reserve_path.rs, over the table
-- `treasury.reserve_ops`.
pub mod ReserveOps
pub mod Calls
pub mod Planner
pub mod Relayer
pub mod Watcher
pub mod Transactions
pub mod Table
pub mod Listing
pub mod Moves
pub mod Turns
pub mod RelayCases
pub mod Relays
pub mod WatchCases
pub mod Lifecycle
pub mod Steps
pub mod TimeOut
pub mod Stranded
pub mod Justified
pub mod Completions
