-- ===== src/ColdPath/Cycle.antt =====
-- The state of services/treasury/src/cold_path.rs, and the submission of an operation's chunks in
-- `run_rebalance_cycle`.
use web_3_bank.Prelude.{
  ℕ, ◌+◌, Bool, true, false, Option, List, [], ◌∷◌, if◌then◌else◌, Bytes, contains_text,
}
use web_3_bank.Prelude.Dict.{Dict}
use web_3_bank.Eth.Abi.{encode_rebalance, u256_to_trimmed_be}
use web_3_bank.Eth.Messages.{extract_ccip_message_id}
use web_3_bank.Eth.Submit.{
  TxError, rpc, rebalance_cap_exceeded, dest_chain_not_allowlisted, pool_depth_insufficient, Node,
  Net, Call, Result, ok, err, submit_with_retry, Logs,
}
use web_3_bank.Rebalance.{Op}
use web_3_bank.ColdPath.RebalanceOps.{
  RebalanceRow, update_rebalance_op_submitted, update_rebalance_op_failed,
}

-- What a `ColdPath` is built with, the network's answers, whether the database answers at a time, and
-- the clocks: the database's in seconds, the service's in milliseconds. The selectors and the topic
-- are the first bytes of hashes, and their texts.
pub record Env : Type 0 where
  pub node : Node
  pub database_up : ℕ → Bool
  pub database_now : ℕ → ℕ
  pub ts_ms : ℕ → ℕ
  pub rpc_urls : Dict Bytes
  pub contract_addresses : Dict Bytes
  pub relayer_key : Option Bytes
  pub relayer_address : Option Bytes
  pub pool_depth_selector : Bytes
  pub max_rebalance_amount_selector : Bytes
  pub rebalance_selector : Bytes
  pub rebalance_initiated_topic : Bytes
  pub cap_selector : Bytes
  pub dest_selector : Bytes
  pub pool_selector : Bytes
  pub cold_path_min_bps : ℕ
  pub cold_path_target_bps : ℕ
  pub max_wei_per_op : Option ℕ
  pub ccip_fee_wei : ℕ

pub record State : Type 0 where
  pub net : Net
  pub active_chains : List ℕ
  pub decommissioned_chains : List ℕ
  pub rebalance_ops : List RebalanceRow

-- One unit of time passes with each call out.
abbrev pub later : State → State
later s = record s { net = record s.net { tick = s.net.tick + 1 } }

abbrev pub write : Env → (List RebalanceRow → List RebalanceRow) → State → State
write env f s = record (later s) {
  rebalance_ops = if env.database_up s.net.tick then f s.rebalance_ops else s.rebalance_ops;
}

unfoldable pub map_rebalance_revert : Env → TxError → TxError
unfolding contains_text
map_rebalance_revert env (rpc msg) =
    if contains_text env.cap_selector msg
    then rebalance_cap_exceeded
    else (if contains_text env.dest_selector msg
        then dest_chain_not_allowlisted
        else (if contains_text env.pool_selector msg then pool_depth_insufficient else rpc msg))
map_rebalance_revert env e = e

rebalance_gas_limit : ℕ
rebalance_gas_limit = 300000

-- The call that `submit_rebalance_once` makes.
unfoldable pub rebalance_call : Env → Op → Bytes → Bytes → ℕ → Call
unfolding rebalance_gas_limit u256_to_trimmed_be encode_rebalance map_rebalance_revert
rebalance_call env op rpc_url bank_addr amount = record {
  chain_id = op.source;
  rpc_url = rpc_url;
  contract = bank_addr;
  gas_limit = rebalance_gas_limit;
  value = u256_to_trimmed_be env.ccip_fee_wei;
  call_data = encode_rebalance env.rebalance_selector op.dest amount;
  send_error = map_rebalance_revert env;
}

-- The row after a chunk, and whether the loop goes on; every error ends it.
unfoldable pub record_chunk : Env → Bytes → Result (Bytes × Logs) → State → State × Bool
unfolding update_rebalance_op_submitted update_rebalance_op_failed extract_ccip_message_id
record_chunk env id (ok (tx, logs)) s = (
  write env
      (update_rebalance_op_submitted id tx
        (extract_ccip_message_id env.rebalance_initiated_topic logs))
      s,
  true,
)
record_chunk env id (err e) s = (write env (update_rebalance_op_failed id) s, false)

unfoldable pub submit_chunk : Env → Bytes → Op → Bytes → Bytes → ℕ → State → State × Bool
unfolding record_chunk rebalance_call submit_with_retry
submit_chunk env id op rpc_url bank_addr amount s =
    let (r, net) =
      submit_with_retry env.node (rebalance_call env op rpc_url bank_addr amount) env.relayer_key
        env.relayer_address s.net in
    record_chunk env id r (record s { net = net })

unfoldable pub submit_chunks : Env → Bytes → Op → Bytes → Bytes → List ℕ → State → State
unfolding submit_chunk
submit_chunks env id op rpc_url bank_addr [] s = s
submit_chunks env id op rpc_url bank_addr (amount ∷ rest) s =
    let (s', more) = submit_chunk env id op rpc_url bank_addr amount s in
    let next = submit_chunks env id op rpc_url bank_addr rest s' in if more then next else s'
