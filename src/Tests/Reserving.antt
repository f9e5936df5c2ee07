-- ===== src/Tests/Reserving.antt =====
-- The reserve path over two chains.
use web_3_bank.Prelude.{
  ℕ, ◌+◌, ◌%◌, ◌≡◌, refl, true, false, none, some, List, [], ◌∷◌, All, length, drop, codes, ◌===◌,
  arith,
}
use web_3_bank.Rebalance.{Op}
use web_3_bank.Eth.Submit.{ok}
use web_3_bank.Eth.Hex.{decode_hex}
use web_3_bank.Eth.Abi.{encode_bridge_in}
use web_3_bank.Eth.BridgeIn.{bytes_argument, bytes_argument-encode_bridge_in}
use web_3_bank.Watcher.Events.{RpcLog}
use web_3_bank.ReservePath.ReserveOps.{
  ReserveRow, submitted, relayed, completed, failed, list_awaiting_attestation, is_stuck,
  reserve_op_exists,
}
use web_3_bank.ReservePath.Calls.{Env, State}
use web_3_bank.ReservePath.Planner.{bridge_op}
use web_3_bank.ReservePath.Relayer.{relay_one, relayer_round, domain_of, first_ready, adapter_of}
use web_3_bank.ReservePath.Watcher.{run_watcher_cycle, time_out_stuck}
use web_3_bank.ReservePath.Transactions.{
  RelayEnd, relay_one-RelayEnd, BridgeEnd, bridge_op-BridgeEnd,
}
use web_3_bank.ReservePath.Table.{status_of}
use web_3_bank.ReservePath.Moves.{Advances}
use web_3_bank.ReservePath.Steps.{Run, here, next, planned, relay_round, watched, Run-Advances}
use web_3_bank.ReservePath.Justified.{IsJustified}
use web_3_bank.ReservePath.Completions.{Run-IsJustified}
use web_3_bank.ReservePath.TimeOut.{time_out_stuck-IsFailed}
use web_3_bank.ReservePath.Stranded.{relayer_rounds, relay_one-stranded}
use web_3_bank.Tests.Relaying.{node, bank, start}

abbrev message_text : List ℕ
message_text = codes "0x0000000000000000000000000000000000000000000000000000000000000007"

abbrev completed_log : RpcLog
completed_log = record {
  block_number = codes "0x63";
  log_index = codes "0x0";
  topics = codes "0xdone" ∷ message_text ∷ [];
  payload = [];
  transaction_hash = codes "0xaa";
}

abbrev env : Env
env = record {
  node = record node {
    wait_for_receipt = λ t url hash. ok ((codes "0xinit" ∷ message_text ∷ []) ∷ []);
  };
  fetch_block_number = λ t url. some 100;
  fetch_logs = λ t url contract topic from to. completed_log ∷ [];
  circle = λ t domain tx.
      some (record { attestation = some (codes "0x0b"); message = some (codes "0x0a") } ∷ []);
  database_up = λ t. true;
  database_now = λ t. 1000000 + t;
  ts_ms = λ t. 1700000000000 + t;
  rpc_urls = (1, codes "http://a") ∷ (2, codes "http://b") ∷ [];
  contract_addresses = (1, bank) ∷ (2, bank) ∷ [];
  cctp_domains = some ((1, 0) ∷ (2, 6) ∷ []);
  reserve_bridge_addresses = some ((2, bank) ∷ []);
  relayer_key = some (codes "key");
  relayer_address = some (codes "relayer");
  reserve_depth_selector = 0 ∷ [];
  bridge_reserve_selector = 1 ∷ 1 ∷ 1 ∷ 1 ∷ [];
  bridge_in_selector = 2 ∷ 2 ∷ 2 ∷ 2 ∷ [];
  reserve_bridge_initiated_topic = codes "0xinit";
  reserve_bridge_completed_topic = codes "0xdone";
  reserve_path_min_bps = 8000;
  max_wei_per_op = none;
  bridge_fee_wei = 0;
}

abbrev before : State
before = record {
  net = start.net;
  active_chains = 1 ∷ 2 ∷ [];
  decommissioned_chains = [];
  watcher_cursor = [];
  reserve_ops = [];
}

abbrev op : Op
op = record { source = 1; dest = 2; amount = 100 }

abbrev id : List ℕ
id = codes "res-1-2-1700000000002"

-- The operation is bridged, relayed and completed.
abbrev bridged : State
bridged = bridge_op env op before

life :
    (status_of id bridged.reserve_ops ≡ some submitted)
    × ((status_of id (relayer_round env bridged).reserve_ops ≡ some relayed)
        × (status_of id (run_watcher_cycle env 3600 (relayer_round env bridged)).reserve_ops
            ≡ some completed))
unfolding bridge_op relayer_round run_watcher_cycle status_of ◌===◌ decode_hex
life = (refl, (refl, refl))

abbrev row : ReserveRow
row = record {
  op_id = id;
  source_chain_id = 1;
  dest_chain_id = 2;
  amount_wei = 100;
  bridge_type = codes "CCTP";
  bridge_message_id = some message_text;
  source_tx_hash = some (codes "0xhash");
  cctp_message_bytes = none;
  cctp_attestation = none;
  dest_tx_hash = none;
  status = submitted;
  created_at = 0;
  updated_at = 0;
}

abbrev waiting : State
waiting = record before { reserve_ops = row ∷ [] }

bridge_op-BridgeEnd_example : BridgeEnd env op before (bridge_op env op before)
bridge_op-BridgeEnd_example = bridge_op-BridgeEnd env op before

relay_one-RelayEnd_example : RelayEnd env row waiting (relay_one env row waiting)
relay_one-RelayEnd_example = relay_one-RelayEnd env row waiting

abbrev ended : State
ended = run_watcher_cycle env 3600 (relayer_round env bridged)

loops : Run env before ended
unfolding reserve_op_exists
loops = next (next (next here (planned op refl)) relay_round) (watched 3600)

Run-Advances_example : Advances [] ended.reserve_ops
Run-Advances_example = Run-Advances env tt loops

Run-IsJustified_example : All (IsJustified env) ended.reserve_ops
Run-IsJustified_example = Run-IsJustified env tt tt loops

time_out_stuck-IsFailed_example :
    All
      (λ r.
        is_stuck 1000000 3600 r ≡ true
        → status_of r.op_id (time_out_stuck env 3600 waiting).reserve_ops ≡ some failed)
      (row ∷ [])
unfolding is_stuck
time_out_stuck-IsFailed_example =
    time_out_stuck-IsFailed env 3600 waiting (λ t. refl) (tt, tt) (omega arith)

abbrev unconfigured : Env
unconfigured = record env { reserve_bridge_addresses = none }

relay_one-stranded_example :
    let rows = (relayer_rounds unconfigured 2 (relay_one unconfigured row waiting)).reserve_ops in
    ((relay_one unconfigured row waiting).net.sent ≡ [])
    × ((status_of id rows ≡ status_of id (row ∷ []))
        × All (λ q. (q.op_id === id) ≡ false) (list_awaiting_attestation rows))
unfolding domain_of first_ready adapter_of
relay_one-stranded_example =
    relay_one-stranded unconfigured row waiting (codes "0xhash") (codes "0x0a") (codes "0x0b") 0 2
      refl refl refl refl refl

-- Before, the row is listed.
listed_before : list_awaiting_attestation waiting.reserve_ops ≡ row ∷ []
unfolding list_awaiting_attestation
listed_before = refl

bytes_argument-encode_bridge_in_example :
    (bytes_argument 0 (drop 4 (encode_bridge_in (2 ∷ 2 ∷ 2 ∷ 2 ∷ []) (7 ∷ 8 ∷ []) (9 ∷ [])))
      ≡ 7 ∷ 8 ∷ [])
    × ((bytes_argument 1 (drop 4 (encode_bridge_in (2 ∷ 2 ∷ 2 ∷ 2 ∷ []) (7 ∷ 8 ∷ []) (9 ∷ [])))
          ≡ 9 ∷ [])
        × (length (drop 4 (encode_bridge_in (2 ∷ 2 ∷ 2 ∷ 2 ∷ []) (7 ∷ 8 ∷ []) (9 ∷ []))) % 32 ≡ 0))
bytes_argument-encode_bridge_in_example =
    bytes_argument-encode_bridge_in (2 ∷ 2 ∷ 2 ∷ 2 ∷ []) (7 ∷ 8 ∷ []) (9 ∷ []) refl (omega arith)
      (omega arith)
