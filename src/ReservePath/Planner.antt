-- ===== src/ReservePath/Planner.antt =====
-- `run_planner_cycle` of services/treasury/src/reserve_path.rs.
use web_3_bank.Prelude.{
  ℕ, Bool, false, Option, none, some, List, [], ◌∷◌, ◌++◌, ltb, if◌then◌else◌, Bytes, codes, length,
  decimal_digits,
}
use web_3_bank.Prelude.Dict.{get}
use web_3_bank.Rebalance.{
  Pool, Op, RebalanceOpDecision, submit, skip_insufficient_depth, skip_op_in_flight,
  evaluate_rebalance_op,
}
use web_3_bank.Eth.Chains.{cycle_chains, read_depths}
use web_3_bank.Eth.Messages.{extract_reserve_bridge_initiated_message_id}
use web_3_bank.Eth.Submit.{Result, ok, err, Logs}
use web_3_bank.ColdPath.Planner.{plan_reserve}
use web_3_bank.ReservePath.ReserveOps.{
  op_in_flight, insert_reserve_op, update_submitted, update_failed,
}
use web_3_bank.ReservePath.Calls.{Env, State, later, write, submit_bridge, bridge_reserve_call}

-- `format!("res-{}-{}-{}", ..)`; a `u64` has at most 20 digits, a `u128` at most 39.
unfoldable pub reserve_op_id : Op → ℕ → Bytes
unfolding decimal_digits
reserve_op_id op ts_ms =
    codes "res-"
    ++ (decimal_digits 20 op.source []
        ++ (codes "-"
            ++ (decimal_digits 20 op.dest [] ++ (codes "-" ++ decimal_digits 39 ts_ms []))))

-- The row after `bridgeReserve`.
unfoldable pub settle_reserve : Env → Bytes → Result (Bytes × Logs) → State → State
unfolding extract_reserve_bridge_initiated_message_id
settle_reserve env id (ok (tx, logs)) s =
    write env
      (update_submitted id tx
        (extract_reserve_bridge_initiated_message_id env.reserve_bridge_initiated_topic logs))
      s
settle_reserve env id (err e) s = write env (update_failed id) s

-- From the row of the operation on.
unfoldable pub commit_reserve : Env → Op → Bytes → Bytes → State → State
unfolding settle_reserve submit_bridge bridge_reserve_call reserve_op_id insert_reserve_op
commit_reserve env op rpc_url bank_addr s =
    let id = reserve_op_id op (env.ts_ms s.net.tick) in
    let s' = write env (insert_reserve_op id op.source op.dest op.amount (codes "CCTP")) s in
    let (r, net) =
      submit_bridge env (bridge_reserve_call env op.source rpc_url bank_addr op.dest op.amount)
        s'.net in
    settle_reserve env id r (record s' { net = net })

unfoldable pub on_reserve_decision : Env → Op → Bytes → Bytes → RebalanceOpDecision → State → State
unfolding commit_reserve
on_reserve_decision env op rpc_url bank_addr submit s = commit_reserve env op rpc_url bank_addr s
on_reserve_decision env op rpc_url bank_addr skip_insufficient_depth s = s
on_reserve_decision env op rpc_url bank_addr skip_op_in_flight s = s

-- A failed query reads as `false`.
unfoldable pub reserve_in_flight_now : Env → Op → State → Bool
unfolding op_in_flight
reserve_in_flight_now env op s =
    if env.database_up s.net.tick
    then op_in_flight (env.database_now s.net.tick) op.source op.dest s.reserve_ops
    else false

-- With the live depth of the source's reserve.
unfoldable pub with_reserve_depth : Env → Op → Bytes → Bytes → Option ℕ → State → State
unfolding on_reserve_decision reserve_in_flight_now evaluate_rebalance_op
with_reserve_depth env op rpc_url bank_addr none s = s
with_reserve_depth env op rpc_url bank_addr (some live_depth) s =
    on_reserve_decision env op rpc_url bank_addr
      (evaluate_rebalance_op live_depth op.amount (reserve_in_flight_now env op s)) (later s)

-- One round of step 4.
unfoldable pub bridge_op : Env → Op → State → State
unfolding with_reserve_depth
bridge_op env op s = elim (get op.source env.rpc_urls) [
  | none ↦ s
  | some rpc_url ↦ elim (get op.source env.contract_addresses) [
    | none ↦ s
    | some bank_addr ↦
        with_reserve_depth env op rpc_url bank_addr
          (env.node.fetch_u256_view s.net.tick rpc_url bank_addr env.reserve_depth_selector)
          (later s)
  ]
]

unfoldable pub bridge_ops : Env → List Op → State → State
unfolding bridge_op
bridge_ops env [] s = s
bridge_ops env (op ∷ ops) s = bridge_ops env ops (bridge_op env op s)

-- Steps 2 to 4; `none`: the matching does not end.
unfoldable pub with_reserve_depths : Env → Option (List Pool) → State → Option State
unfolding plan_reserve bridge_ops
with_reserve_depths env none s = some s
with_reserve_depths env (some depths) s =
    elim (plan_reserve env.reserve_path_min_bps env.max_wei_per_op depths) [
      | none ↦ none
      | some ops ↦ some (bridge_ops env ops s)
    ]

unfoldable pub run_planner_cycle : Env → State → Option State
unfolding cycle_chains read_depths with_reserve_depths
run_planner_cycle env s =
    let chains =
      cycle_chains s.active_chains s.decommissioned_chains env.contract_addresses env.rpc_urls in
    let (depths, tick) = read_depths env.node env.reserve_depth_selector s.net.tick chains in
    if ltb (length chains) 2
    then some s
    else with_reserve_depths env depths (record s { net = record s.net { tick = tick } })
