-- ===== src/Domain.antt =====
-- The pure decisions of services/treasury/src/domain: relay.rs, withdrawal_routing.rs, balance.rs.
pub mod Relay
pub mod Withdrawal
pub mod Balance
