-- ===== src/ReservePath/Calls.antt =====
-- The state of services/treasury/src/reserve_path.rs, and its two contract calls.
use web_3_bank.Prelude.{ℕ, ◌+◌, Bool, Option, none, some, List, [], if◌then◌else◌, Bytes}
use web_3_bank.Prelude.Dict.{Dict}
use web_3_bank.Eth.Abi.{encode_bridge_reserve, encode_bridge_in, u256_to_trimmed_be}
use web_3_bank.Eth.Submit.{Node, Net, Call, Result, err, missing_key, Logs, attempts, max_retries}
use web_3_bank.Watcher.Events.{RpcLog}
use web_3_bank.ReservePath.ReserveOps.{ReserveRow}

-- An element of `messages` in the body of Circle's answer: its fields that are texts.
pub record CircleMessage : Type 0 where
  pub attestation : Option Bytes
  pub message : Option Bytes

-- What a `ReservePath` is built with, the network's answers, whether the database answers at a time,
-- and the clocks: the database's in seconds, the service's in milliseconds. `circle` is the array
-- `messages` of a successful answer to the GET for a domain and a transaction.
pub record Env : Type 0 where
  pub node : Node
  pub fetch_block_number : ℕ → Bytes → Option ℕ
  pub fetch_logs : ℕ → Bytes → Bytes → Bytes → ℕ → ℕ → List RpcLog
  pub circle : ℕ → ℕ → Bytes → Option (List CircleMessage)
  pub database_up : ℕ → Bool
  pub database_now : ℕ → ℕ
  pub ts_ms : ℕ → ℕ
  pub rpc_urls : Dict Bytes
  pub contract_addresses : Dict Bytes
  pub cctp_domains : Option (Dict ℕ)
  pub reserve_bridge_addresses : Option (Dict Bytes)
  pub relayer_key : Option Bytes
  pub relayer_address : Option Bytes
  pub reserve_depth_selector : Bytes
  pub bridge_reserve_selector : Bytes
  pub bridge_in_selector : Bytes
  pub reserve_bridge_initiated_topic : Bytes
  pub reserve_bridge_completed_topic : Bytes
  pub reserve_path_min_bps : ℕ
  pub max_wei_per_op : Option ℕ
  pub bridge_fee_wei : ℕ

pub record State : Type 0 where
  pub net : Net
  pub active_chains : List ℕ
  pub decommissioned_chains : List ℕ
  pub watcher_cursor : Dict ℕ
  pub reserve_ops : List ReserveRow

-- One unit of time passes with each call out.
abbrev pub later : State → State
later s = record s { net = record s.net { tick = s.net.tick + 1 } }

-- A query that writes, at the database's time.
abbrev pub write : Env → (ℕ → List ReserveRow → List ReserveRow) → State → State
write env f s = record (later s) {
  reserve_ops =
      if env.database_up s.net.tick
      then f (env.database_now s.net.tick) s.reserve_ops
      else s.reserve_ops;
}

-- `submit_bridge_reserve` and `submit_bridge_in`: without a key or an address there is no attempt.
unfoldable pub submit_bridge : Env → Call → Net → Result (Bytes × Logs) × Net
unfolding attempts
submit_bridge env call n = elim env.relayer_key [
  | none ↦ (err missing_key, n)
  | some key ↦ elim env.relayer_address [
    | none ↦ (err missing_key, n)
    | some addr ↦ attempts max_retries env.node call key (some addr) n
  ]
]

bridge_reserve_gas_limit : ℕ
bridge_reserve_gas_limit = 350000

bridge_in_gas_limit : ℕ
bridge_in_gas_limit = 400000

-- The call of `submit_bridge_reserve_once`, which carries no value.
unfoldable pub bridge_reserve_call : Env → ℕ → Bytes → Bytes → ℕ → ℕ → Call
unfolding bridge_reserve_gas_limit encode_bridge_reserve
bridge_reserve_call env source rpc_url bank_addr dest amount = record {
  chain_id = source;
  rpc_url = rpc_url;
  contract = bank_addr;
  gas_limit = bridge_reserve_gas_limit;
  value = [];
  call_data = encode_bridge_reserve env.bridge_reserve_selector dest amount;
  send_error = λ e. e;
}

-- The call of `submit_bridge_in_once`.
unfoldable pub bridge_in_call : Env → ℕ → Bytes → Bytes → Bytes → Bytes → Call
unfolding bridge_in_gas_limit encode_bridge_in u256_to_trimmed_be
bridge_in_call env dest rpc_url adapter_addr message attestation = record {
  chain_id = dest;
  rpc_url = rpc_url;
  contract = adapter_addr;
  gas_limit = bridge_in_gas_limit;
  value = u256_to_trimmed_be env.bridge_fee_wei;
  call_data = encode_bridge_in env.bridge_in_selector message attestation;
  send_error = λ e. e;
}
