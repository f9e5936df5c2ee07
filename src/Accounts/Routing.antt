-- ===== src/Accounts/Routing.antt =====
-- What a user may withdraw on each chain, services/treasury/src/account_withdrawal_routing.rs. The
-- chains are read one after the other.
use web_3_bank.Prelude.{ℕ, ◌+◌, Bool, Option, none, some, List, [], ◌∷◌, Bytes}
use web_3_bank.Prelude.Dict.{Dict, get}
use web_3_bank.Eth.Rpc.{fetch_u256_view}
use web_3_bank.Domain.Balance.{ChainBalanceContribution}
use web_3_bank.Domain.Withdrawal.{
  ChainWithdrawalInput, ChainWithdrawalEntry, compute_withdrawal_routing,
}
use web_3_bank.Accounts.Balance.{Env, State, later, read_chain_balance}

-- The environment of the balances, with the answers of the hot path and the reserve's selector.
pub record RoutingEnv : Type 0 where
  pub balances : Env
  pub is_chain_active : ℕ → ℕ → Bool
  pub reserve_depth_selector : Bytes

-- `WithdrawalRoutingEntry`
pub record WithdrawalRoutingEntry : Type 0 where
  pub chain_id : ℕ
  pub withdrawable_wei : ℕ
  pub available : Bool
  pub reason : Bytes
  pub balance_wei : ℕ

abbrev depth_or_zero : Option ℕ → ℕ
depth_or_zero none = 0
depth_or_zero (some n) = n

-- With the balance.
unfoldable pub input_of :
    RoutingEnv
    → ℕ
    → Bytes
    → Bytes
    → Bool
    → Bool
    → Option ChainBalanceContribution × State
    → Option ChainWithdrawalInput × State
unfolding fetch_u256_view
input_of env chain url bank active gone (none, s) = (none, s)
input_of env chain url bank active gone (some balance, s) = (
  some (record {
    chain_id = chain;
    balance_wei = balance.amount;
    reserve_depth_wei =
        depth_or_zero
          (fetch_u256_view env.balances.wire s.tick url bank env.reserve_depth_selector);
    active = active;
    decommissioned = gone;
  }),
  later s,
)

unfoldable pub read_chain_withdrawal_input :
    RoutingEnv → ℕ → Bytes → Bytes → Bytes → State → Option ChainWithdrawalInput × State
unfolding input_of read_chain_balance
read_chain_withdrawal_input env chain url bank user s =
    let gone = env.balances.is_chain_decommissioned s.tick chain in
    let active = env.is_chain_active (s.tick + 1) chain in
    input_of env chain url bank active gone
      (read_chain_balance env.balances chain url bank user (later (later s)))

abbrev add_input :
    Option ChainWithdrawalInput
    → List ChainWithdrawalInput × State
    → List ChainWithdrawalInput × State
add_input none r = r
add_input (some i) (is, s) = (i ∷ is, s)

unfoldable pub gather_chain_inputs :
    RoutingEnv → Bytes → Dict Bytes → State → List ChainWithdrawalInput × State
unfolding read_chain_withdrawal_input
gather_chain_inputs env user [] s = ([], s)
gather_chain_inputs env user ((chain, url) ∷ urls) s =
    elim (get chain env.balances.contract_addresses) [
      | none ↦ gather_chain_inputs env user urls s
      | some bank ↦
          let (i, s') = read_chain_withdrawal_input env chain url bank user s in
          add_input i (gather_chain_inputs env user urls s')
    ]

abbrev reason_text : Option Bytes → Bytes
reason_text none = []
reason_text (some r) = r

unfoldable pub replies : List ChainWithdrawalEntry → List WithdrawalRoutingEntry
replies [] = []
replies (e ∷ es) =
    record {
      chain_id = e.chain_id;
      withdrawable_wei = e.withdrawable_wei;
      available = e.available;
      reason = reason_text e.reason;
      balance_wei = e.balance_wei;
    }
    ∷ replies es

unfoldable pub get_withdrawal_routing :
    RoutingEnv → Bytes → State → List WithdrawalRoutingEntry × State
unfolding gather_chain_inputs compute_withdrawal_routing replies
get_withdrawal_routing env user s =
    let (inputs, s') = gather_chain_inputs env user env.balances.rpc_urls s in
    (replies (compute_withdrawal_routing inputs), s')
