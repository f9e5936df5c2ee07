-- ===== src/HotPath.antt =====
-- The relayer of services/treasury/src/hot_path.rs, over the table `treasury.relay_logs`.
pub mod RelayLogs
pub mod Relay
pub mod Safety
pub mod Lifecycle
pub mod Settled
pub mod Recorded
pub mod Polls
pub mod Decommissioned
pub mod Terminal
pub mod Rounds
pub mod Scans
pub mod Parsing
