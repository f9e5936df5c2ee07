-- ===== src/Tests/Moving.antt =====
-- A cycle of the cold path over two chains.
use web_3_bank.Prelude.{if◌then◌else◌, ◌≡◌, refl, true, none, some, [], ◌∷◌, length, codes, ◌===◌}
use web_3_bank.Rebalance.{Op}
use web_3_bank.Eth.Submit.{Node, err, retry_exhausted, rebalance_cap_exceeded, submit_with_retry}
use web_3_bank.Eth.Hex.{decode_hex}
use web_3_bank.Eth.Abi.{u256_to_trimmed_be}
use web_3_bank.ColdPath.Cycle.{Env, State}
use web_3_bank.ColdPath.Execute.{execute_op, operation_id}
use web_3_bank.ColdPath.Operations.{OpEnd, execute_op-OpEnd}
use web_3_bank.Tests.Relaying.{node, bank, start, call}

abbrev env : Env
env = record {
  node = record node {
    fetch_u256_view = λ t url contract selector.
        if selector === (1 ∷ [])
        then some 90
        else (if url === codes "http://a" then some 300 else some 100);
  };
  database_up = λ t. true;
  database_now = λ t. 1000000;
  ts_ms = λ t. 1700000000000;
  rpc_urls = (1, codes "http://a") ∷ (2, codes "http://b") ∷ [];
  contract_addresses = (1, bank) ∷ (2, bank) ∷ [];
  relayer_key = some (codes "key");
  relayer_address = some (codes "relayer");
  pool_depth_selector = 0 ∷ [];
  max_rebalance_amount_selector = 1 ∷ [];
  rebalance_selector = 2 ∷ [];
  rebalance_initiated_topic = codes "0xtopic";
  cap_selector = codes "0x01";
  dest_selector = codes "0x02";
  pool_selector = codes "0x03";
  cold_path_min_bps = 8000;
  cold_path_target_bps = 0;
  max_wei_per_op = none;
  ccip_fee_wei = 256;
}

abbrev before : State
before = record {
  net = start.net;
  active_chains = 1 ∷ 2 ∷ [];
  decommissioned_chains = [];
  rebalance_ops = [];
}

abbrev op : Op
op = record { source = 1; dest = 2; amount = 100 }

trimmed : u256_to_trimmed_be 256 ≡ 1 ∷ 0 ∷ []
unfolding u256_to_trimmed_be
trimmed = refl

operation_text : operation_id op 1700000000000 ≡ codes "1-2-1700000000000"
unfolding operation_id
operation_text = refl

-- The operation is sent in two chunks, of 90 and of 10.
two_chunks : length (execute_op env op before).net.sent ≡ 2
unfolding execute_op ◌===◌ decode_hex
two_chunks = refl

execute_op-OpEnd_example : OpEnd env op before (execute_op env op before)
execute_op-OpEnd_example = execute_op-OpEnd env op before

-- A contract that always reverts with its cap.
abbrev reverting : Node
reverting = record node { send_raw_transaction = λ t url raw. err rebalance_cap_exceeded }

reverted :
    (submit_with_retry reverting call (some (codes "key")) (some (codes "me")) start.net).0
    ≡ err (retry_exhausted 3)
unfolding submit_with_retry decode_hex
reverted = refl
