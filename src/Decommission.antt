-- ===== src/Decommission.antt =====
-- The drain of a chain that governance decommissions, services/treasury/src/decommission.rs,
-- decommission_runtime.rs and server.rs.
pub mod Ops
pub mod Drain
pub mod Bridges
pub mod Failures
pub mod DrainIds
pub mod Bank
pub mod StaleNonce
pub mod Plan
pub mod PlanHolders
pub mod PlanCovers
pub mod Queries
pub mod Server
pub mod Status
pub mod Control
pub mod Resumed
pub mod Forgotten
