-- ===== src/HotPath/Relay.antt =====
-- `relay_event` and what it calls, in services/treasury/src/hot_path.rs.
use web_3_bank.Prelude.{
  ℕ, ◌+◌, Bool, true, false, not, ◌&&◌, Option, none, some, List, [], if◌then◌else◌, Bytes,
}
use web_3_bank.Prelude.Dict.{Dict, get, contains}
use web_3_bank.Eth.Abi.{encode_release_hot_path}
use web_3_bank.Eth.Submit.{Node, Net, Call, Result, ok, err, submit_with_retry, Logs}
use web_3_bank.Watcher.Events.{RpcLog}
use web_3_bank.Domain.Relay.{
  RelayDecision, approved, inactive_chain, insufficient_depth, evaluate_relay_eligibility, pending,
  completed, rejected_inactive_chain, rejected_insufficient_depth,
}
use web_3_bank.HotPath.RelayLogs.{
  HotPathEvent, RelayRow, relay_recorded, insert_relay_log, update_relay_log,
  update_relay_log_failed,
}

-- What a `HotPath` is built with, the network's answers, and whether the database answers at a time.
pub record Env : Type 0 where
  pub node : Node
  pub fetch_block_number : ℕ → Bytes → Option ℕ
  pub fetch_logs : ℕ → Bytes → Bytes → Bytes → ℕ → ℕ → List RpcLog
  pub database_up : ℕ → Bool
  pub rpc_urls : Dict Bytes
  pub contract_addresses : Dict Bytes
  pub relayer_key : Option Bytes
  pub relayer_address : Option Bytes
  pub release_selector : Bytes
  pub pool_depth_selector : Bytes
  pub route_receiver_address : Bytes
  pub hot_path_topic : Bytes
  pub activation_topic : Bytes
  pub decommission_finalized_topic : Bytes

-- What changes: the shared fields of `HotPath`, and the table.
pub record State : Type 0 where
  pub net : Net
  pub active_chains : List ℕ
  pub decommissioned_chains : List ℕ
  pub relay_logs : List RelayRow

unfoldable pub is_chain_active : ℕ → State → Bool
is_chain_active chain s =
    contains chain s.active_chains && not (contains chain s.decommissioned_chains)

-- One unit of time passes with each call out.
abbrev pub later : State → State
later s = record s { net = record s.net { tick = s.net.tick + 1 } }

-- A write takes effect if the database is up.
abbrev pub write : Env → (List RelayRow → List RelayRow) → State → State
write env f s = record (later s) {
  relay_logs = if env.database_up s.net.tick then f s.relay_logs else s.relay_logs;
}

-- A failed query reads as `false`.
unfoldable pub relay_already_recorded : Env → Bytes → State → Bool
unfolding relay_recorded
relay_already_recorded env h s =
    if env.database_up s.net.tick then relay_recorded h s.relay_logs else false

release_gas_limit : ℕ
release_gas_limit = 120000

-- The call that `submit_release_once` makes.
unfoldable pub release_call : Env → Bytes → Bytes → HotPathEvent → Call
unfolding encode_release_hot_path release_gas_limit
release_call env rpc_url bank_addr event = record {
  chain_id = event.dest_chain_id;
  rpc_url = rpc_url;
  contract = bank_addr;
  gas_limit = release_gas_limit;
  value = [];
  call_data =
      encode_release_hot_path env.release_selector event.recipient event.amount event.event_id;
  send_error = λ e. e;
}

-- The end of step 7: the row records how the submission ended.
unfoldable pub settle : Env → HotPathEvent → Result (Bytes × Logs) → State → State
unfolding update_relay_log update_relay_log_failed
settle env event (ok (tx_hash, logs)) s =
    write env (update_relay_log event.source_event_hash tx_hash completed) s
settle env event (err e) s = write env (update_relay_log_failed event.source_event_hash) s

-- Steps 6 and 7.
unfoldable pub release : Env → HotPathEvent → Bytes → Bytes → State → State
unfolding settle insert_relay_log submit_with_retry release_call
release env event rpc_url bank_addr s =
    let s' = write env (insert_relay_log event none pending) s in
    let (r, net) =
      submit_with_retry env.node (release_call env rpc_url bank_addr event) env.relayer_key
        env.relayer_address s'.net in
    settle env event r (record s' { net = net })

-- Step 5, on the decision.
unfoldable pub act_on : Env → HotPathEvent → Bytes → Bytes → RelayDecision → State → State
unfolding release insert_relay_log
act_on env event rpc_url bank_addr approved s = release env event rpc_url bank_addr s
act_on env event rpc_url bank_addr inactive_chain s =
    write env (insert_relay_log event none rejected_inactive_chain) s
act_on env event rpc_url bank_addr insufficient_depth s =
    write env (insert_relay_log event none rejected_insufficient_depth) s

-- Steps 4 and 5 on an active chain, with the depth that was read.
unfoldable pub with_depth : Env → HotPathEvent → Bytes → Bytes → Option ℕ → State → State
unfolding act_on evaluate_relay_eligibility
with_depth env event rpc_url bank_addr none s = s
with_depth env event rpc_url bank_addr (some depth) s =
    act_on env event rpc_url bank_addr (evaluate_relay_eligibility true depth event.amount) s

-- Steps 4 and 5: the depth of the destination's pool is read on an active chain only.
unfoldable pub on_chain : Env → HotPathEvent → Bytes → Bytes → Bool → State → State
unfolding with_depth
on_chain env event rpc_url bank_addr true s =
    with_depth env event rpc_url bank_addr
      (env.node.fetch_u256_view s.net.tick rpc_url bank_addr env.pool_depth_selector) (later s)
on_chain env event rpc_url bank_addr false s =
    act_on env event rpc_url bank_addr (evaluate_relay_eligibility false 0 event.amount) s

-- Steps 2 to 5. A chain with no RPC URL or no bank contract is passed over.
unfoldable pub resolve : Env → HotPathEvent → State → State
unfolding on_chain is_chain_active
resolve env event s = elim (get event.dest_chain_id env.rpc_urls) [
  | none ↦ s
  | some rpc_url ↦ elim (get event.dest_chain_id env.contract_addresses) [
    | none ↦ s
    | some bank_addr ↦
        on_chain env event rpc_url bank_addr (is_chain_active event.dest_chain_id s) s
  ]
]

-- `relay_event`: step 1 is the idempotency guard.
unfoldable pub relay_event : Env → HotPathEvent → State → State
unfolding relay_already_recorded resolve
relay_event env event s = elim (relay_already_recorded env event.source_event_hash s) [
  | true ↦ later s
  | false ↦ resolve env event (later s)
]
