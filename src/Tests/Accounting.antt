-- ===== src/Tests/Accounting.antt =====
-- What a user is told, and the waiting for a receipt.
use web_3_bank.Prelude.{
  ℕ, ◌*◌, ◌≡◌, refl, true, false, none, some, [], ◌∷◌, codes, ◌===◌, ◌==◌, if◌then◌else◌, arith,
}
use web_3_bank.Eth.Hex.{decode_hex, bytes_to_hex}
use web_3_bank.Eth.Abi.{be_bytes, be_value}
use web_3_bank.Eth.Receipts.{Poll, absent, found, wait_for_receipt_logs}
use web_3_bank.Eth.Waiting.{Ends, wait_for_receipt_logs-Ends}
use web_3_bank.Eth.Submit.{ok}
use web_3_bank.Decommission.Ops.{to_lowercase}
use web_3_bank.AccountIndex.Events.{
  AccountEventRow, transfer, activity_rows, credits, debits, same_lower,
}
use web_3_bank.Accounts.Activity.{get_account_activity}
use web_3_bank.Accounts.Activity
use web_3_bank.Accounts.Entries.{total_in, total_out}
use web_3_bank.Accounts.Statements.{get_account_activity-sums}
use web_3_bank.Accounts.Balance.{Env, State, get_balance}
use web_3_bank.Accounts.Cache.{balances, Answered, get_balance-Answered}
use web_3_bank.Accounts.Unreachable.{unreachable_not_degraded}
use web_3_bank.Accounts.Pools.{poll_depths, get_pool_depth}
use web_3_bank.Accounts.Pools
use web_3_bank.Tests.Controlling.{wire, holder, deposit}

abbrev payment : AccountEventRow
payment = record deposit {
  log_index = 1;
  event_kind = transfer;
  address_from = some holder;
  address_to = some (codes "0xbb");
  amount_wei = 3;
}

abbrev activity : Activity.Env
activity = record {
  database_up = λ t. true;
  events = λ t. payment ∷ deposit ∷ [];
  relay_logs = λ t. [];
}

get_account_activity-sums_example :
    let env = activity in
    (total_in 1 (get_account_activity env 0 holder 50) ≡ credits 1 holder (payment ∷ deposit ∷ []))
    × (total_out 1 (get_account_activity env 0 holder 50)
        ≡ debits 1 holder (payment ∷ deposit ∷ []))
unfolding activity_rows same_lower to_lowercase ◌===◌
get_account_activity-sums_example =
    get_account_activity-sums activity 0 holder 50 1 refl (omega arith) (omega arith)
      (refl, (refl, tt))

spent : debits 1 holder (payment ∷ deposit ∷ []) ≡ 3
unfolding debits to_lowercase ◌===◌
spent = refl

abbrev env : Env
env = record {
  wire = wire;
  database_up = λ t. true;
  events = λ t. deposit ∷ [];
  is_chain_decommissioned = λ t chain. false;
  clock = λ t. 100 * t;
  rpc_urls = (1, codes "url") ∷ [];
  contract_addresses = (1, codes "0xbank") ∷ [];
  balance_of_selector = [];
  sync_usd_selector = [];
}

abbrev cold : State
cold = record { tick = 0; cache = []; sync_usd_cache = [] }

-- The second answer is kept from the first.
kept_balance : (get_balance env holder (balances env (holder ∷ []) cold)).0 ≡ (1, false)
unfolding balances get_balance ◌===◌ decode_hex bytes_to_hex be_bytes be_value to_lowercase
kept_balance = refl

get_balance-Answered_example :
    let s = balances env (holder ∷ []) cold in Answered env holder s (get_balance env holder s).0
get_balance-Answered_example = get_balance-Answered env (holder ∷ []) holder cold refl

abbrev silent : Env
silent = record env { wire = record wire { eth_call = λ t url contract call_data. none } }

unreachable_not_degraded_example : (get_balance silent holder cold).0 ≡ (0, false)
unreachable_not_degraded_example =
    unreachable_not_degraded silent (λ t url contract call_data. refl) holder cold refl refl

abbrev pools : Pools.Env
pools = record {
  wire = wire;
  database_up = λ t. true;
  rpc_urls = (1, codes "url") ∷ [];
  contract_addresses = (1, codes "0xbank") ∷ [];
  pool_depth_selector = [];
}

polled_depth :
    get_pool_depth pools 1 (poll_depths pools (record { tick = 0; snapshots = [] })) ≡ some 1
unfolding get_pool_depth poll_depths decode_hex bytes_to_hex be_bytes be_value
polled_depth = refl

-- The receipt is there at the third question.
abbrev polls : ℕ → Poll
polls t = if t == 2 then found (some (codes "0x1")) [] else absent

confirmed_third : wait_for_receipt_logs polls (λ t. 500 * t) (codes "0xtx") 90000 0 ≡ some (ok [])
unfolding wait_for_receipt_logs ◌===◌
confirmed_third = refl

wait_for_receipt_logs-Ends_example :
    Ends polls
      (λ t. 500 * t)
      (codes "0xtx")
      90000
      0
      (wait_for_receipt_logs polls (λ t. 500 * t) (codes "0xtx") 90000 0)
wait_for_receipt_logs-Ends_example =
    wait_for_receipt_logs-Ends polls (λ t. 500 * t) (codes "0xtx") 90000 0 (λ j. omega arith)
