-- ===== src/AccountIndex.antt =====
-- The indexer of account events, services/treasury/src/account_index.rs.
pub mod Events
pub mod Parsing
pub mod Ingest
pub mod Index
pub mod Rounds
pub mod HomeChains
