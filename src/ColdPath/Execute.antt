-- ===== src/ColdPath/Execute.antt =====
-- The rest of `run_rebalance_cycle` of services/treasury/src/cold_path.rs: one operation with its
-- guards, and the cycle as a whole.
use web_3_bank.Prelude.{
  ℕ, Bool, false, Option, none, some, List, [], ◌∷◌, ◌++◌, ◌==◌, ltb, if◌then◌else◌, Bytes, codes,
  length, decimal_digits,
}
use web_3_bank.Eth.Chains.{cycle_chains, read_depths}
use web_3_bank.Prelude.Dict.{get}
use web_3_bank.Rebalance.{
  Pool, Op, RebalanceOpDecision, submit, skip_insufficient_depth, skip_op_in_flight,
  evaluate_rebalance_op,
}
use web_3_bank.ColdPath.Planner.{plan_rebalance}
use web_3_bank.ColdPath.Chunks.{split_amount_by_cap}
use web_3_bank.ColdPath.RebalanceOps.{op_in_flight, insert_rebalance_op, update_rebalance_op_failed}
use web_3_bank.ColdPath.Cycle.{Env, State, later, write, submit_chunks}

unfoldable pub submit_split : Env → Bytes → Op → Bytes → Bytes → Option (List ℕ) → State → State
unfolding submit_chunks
submit_split env id op rpc_url bank_addr none s = s
submit_split env id op rpc_url bank_addr (some chunks) s =
    submit_chunks env id op rpc_url bank_addr chunks s

-- With the cap of the source's bank contract; 0, or none that could be read, fails the operation.
unfoldable pub with_cap : Env → Bytes → Op → Bytes → Bytes → Option ℕ → State → State
unfolding submit_split split_amount_by_cap update_rebalance_op_failed
with_cap env id op rpc_url bank_addr none s = write env (update_rebalance_op_failed id) s
with_cap env id op rpc_url bank_addr (some cap) s =
    if cap == 0
    then write env (update_rebalance_op_failed id) s
    else submit_split env id op rpc_url bank_addr (split_amount_by_cap op.amount cap) s

-- `format!("{}-{}-{}", ..)`; a `u64` has at most 20 digits, a `u128` at most 39.
unfoldable pub operation_id : Op → ℕ → Bytes
unfolding decimal_digits
operation_id op ts_ms =
    decimal_digits 20 op.source []
    ++ (codes "-" ++ (decimal_digits 20 op.dest [] ++ (codes "-" ++ decimal_digits 39 ts_ms [])))

-- From the row of the operation on.
unfoldable pub commit : Env → Op → Bytes → Bytes → State → State
unfolding with_cap operation_id insert_rebalance_op
commit env op rpc_url bank_addr s =
    let id = operation_id op (env.ts_ms s.net.tick) in
    let s' =
      write env (insert_rebalance_op (env.database_now s.net.tick) id op.source op.dest op.amount)
        s in
    with_cap env id op rpc_url bank_addr
      (env.node.fetch_u256_view s'.net.tick rpc_url bank_addr env.max_rebalance_amount_selector)
      (later s')

unfoldable pub on_decision : Env → Op → Bytes → Bytes → RebalanceOpDecision → State → State
unfolding commit
on_decision env op rpc_url bank_addr submit s = commit env op rpc_url bank_addr s
on_decision env op rpc_url bank_addr skip_insufficient_depth s = s
on_decision env op rpc_url bank_addr skip_op_in_flight s = s

-- A failed query reads as `false`.
unfoldable pub in_flight_now : Env → Op → State → Bool
unfolding op_in_flight
in_flight_now env op s =
    if env.database_up s.net.tick
    then op_in_flight (env.database_now s.net.tick) op.source op.dest s.rebalance_ops
    else false

-- With the live depth of the source's pool.
unfoldable pub with_live_depth : Env → Op → Bytes → Bytes → Option ℕ → State → State
unfolding on_decision in_flight_now evaluate_rebalance_op
with_live_depth env op rpc_url bank_addr none s = s
with_live_depth env op rpc_url bank_addr (some live_depth) s =
    on_decision env op rpc_url bank_addr
      (evaluate_rebalance_op live_depth op.amount (in_flight_now env op s)) (later s)

-- One round of step 5.
unfoldable pub execute_op : Env → Op → State → State
unfolding with_live_depth
execute_op env op s = elim (get op.source env.rpc_urls) [
  | none ↦ s
  | some rpc_url ↦ elim (get op.source env.contract_addresses) [
    | none ↦ s
    | some bank_addr ↦
        with_live_depth env op rpc_url bank_addr
          (env.node.fetch_u256_view s.net.tick rpc_url bank_addr env.pool_depth_selector) (later s)
  ]
]

unfoldable pub execute_ops : Env → List Op → State → State
unfolding execute_op
execute_ops env [] s = s
execute_ops env (op ∷ ops) s = execute_ops env ops (execute_op env op s)

-- Steps 2 to 5; `none`: the matching does not end.
with_depths : Env → Option (List Pool) → State → Option State
unfolding plan_rebalance execute_ops
with_depths env none s = some s
with_depths env (some depths) s =
    elim (plan_rebalance env.cold_path_min_bps env.cold_path_target_bps env.max_wei_per_op depths) [
      | none ↦ none
      | some ops ↦ some (execute_ops env ops s)
    ]

unfoldable pub run_rebalance_cycle : Env → State → Option State
unfolding cycle_chains read_depths with_depths
run_rebalance_cycle env s =
    let chains =
      cycle_chains s.active_chains s.decommissioned_chains env.contract_addresses env.rpc_urls in
    let (depths, tick) = read_depths env.node env.pool_depth_selector s.net.tick chains in
    if ltb (length chains) 2
    then some s
    else with_depths env depths (record s { net = record s.net { tick = tick } })
