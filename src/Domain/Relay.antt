-- ===== src/Domain/Relay.antt =====
-- services/treasury/src/domain/relay.rs and the statuses of domain/status.rs.
use web_3_bank.Prelude.{
  ℕ, ◌≤◌, ◌≡◌, ◌↔◌, Bool, true, false, Option, none, some, arith, leb, if◌then◌else◌, Bytes, codes,
}

pub data RelayStatus : Type 0 where
  pending completed failed rejected_inactive_chain rejected_insufficient_depth : RelayStatus

-- `RelayStatus::as_str`, the text that the database holds.
unfoldable pub as_str : RelayStatus → Bytes
as_str pending = codes "pending"
as_str completed = codes "completed"
as_str failed = codes "failed"
as_str rejected_inactive_chain = codes "rejected_inactive_chain"
as_str rejected_insufficient_depth = codes "rejected_insufficient_depth"

pub data RelayDecision : Type 0 where
  approved inactive_chain insufficient_depth : RelayDecision

unfoldable pub as_relay_status : RelayDecision → Option RelayStatus
as_relay_status approved = none
as_relay_status inactive_chain = some rejected_inactive_chain
as_relay_status insufficient_depth = some rejected_insufficient_depth

unfoldable pub evaluate_relay_eligibility : Bool → ℕ → ℕ → RelayDecision
evaluate_relay_eligibility false pool_depth required_amount = inactive_chain
evaluate_relay_eligibility true pool_depth required_amount =
    if leb required_amount pool_depth then approved else insufficient_depth

-- A relay is approved exactly when the chain is active and its pool covers the amount; it is not
-- logged as a rejection exactly in that case.
approved_iff :
    (active : Bool) (depth amount : ℕ)
    → let decision = evaluate_relay_eligibility active depth amount in
      ((decision ≡ approved) ↔ ((active ≡ true) × (amount ≤ depth)))
      × ((as_relay_status decision ≡ none) ↔ ((active ≡ true) × (amount ≤ depth)))
unfolding evaluate_relay_eligibility as_relay_status
approved_iff false depth amount = ground arith
approved_iff true depth amount = ground arith
