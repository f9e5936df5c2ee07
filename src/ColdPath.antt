-- ===== src/ColdPath.antt =====
-- Rebalancing between chains: services/treasury/src/cold_path.rs, and the planner of reserve_path.rs.
pub mod Planner
pub mod Plans
pub mod Chunks
pub mod RebalanceOps
pub mod Cycle
pub mod Execute
pub mod Parts
pub mod Operations
