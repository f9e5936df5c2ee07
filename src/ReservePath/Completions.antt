-- ===== src/ReservePath/Completions.antt =====
-- The loops of services/treasury/src/reserve_path.rs and the completed rows.
use web_3_bank.Prelude.{
  ℕ, refl, Bool-cases, Option-cases, inl, inr, Option, none, some, List, [], ◌∷◌, if◌then◌else◌,
  Bytes, codes, All,
}
use web_3_bank.Prelude.Dict.{get}
use web_3_bank.Rebalance.{
  Op, RebalanceOpDecision, submit, skip_insufficient_depth, skip_op_in_flight,
  evaluate_rebalance_op,
}
use web_3_bank.Eth.Messages.{extract_reserve_bridge_initiated_message_id}
use web_3_bank.Eth.Submit.{Result, ok, err, Logs}
use web_3_bank.ReservePath.ReserveOps.{
  submitted, relayed, completed, ReserveRow, reserve_op_exists, insert_reserve_op, update_failed,
  list_stuck, list_awaiting_attestation,
}
use web_3_bank.ReservePath.Calls.{Env, State, later, write, submit_bridge, bridge_reserve_call}
use web_3_bank.ReservePath.Planner.{
  reserve_op_id, settle_reserve, commit_reserve, on_reserve_decision, reserve_in_flight_now,
  with_reserve_depth, bridge_op,
}
use web_3_bank.ReservePath.Relayer.{relay_one, relay_rows, relayer_round}
use web_3_bank.ReservePath.Watcher.{watch_chains, fail_rows, time_out_stuck, run_watcher_cycle}
use web_3_bank.ReservePath.Table.{IsUnique, update-IsUnique}
use web_3_bank.ReservePath.RelayCases.{relay_one-cases}
use web_3_bank.ReservePath.WatchCases.{scan-cases}
use web_3_bank.ReservePath.Steps.{
  Step, planned, relay_round, watched, told, waited, Run, here, next, Run-Advances,
}
use web_3_bank.ReservePath.Justified.{IsJustified, update_keeps, fail_keeps, complete_keeps}

module _ (env : Env) where
  -- The relayer writes no completion.
  relay_rows_keeps :
      (l : List ReserveRow) (s : State)
      → All (IsJustified env) s.reserve_ops
      → All (IsJustified env) (relay_rows env l s).reserve_ops
  unfolding relay_rows
  relay_rows_keeps [] s j = j
  relay_rows_keeps (row ∷ l) s j = relay_rows_keeps l (relay_one env row s) (
      relay_one-cases env row (All (IsJustified env)) (All (IsJustified env)) (λ rows k. k)
        (λ m a now rows.
          update_keeps env row.op_id
            (λ r. record r {
              cctp_message_bytes = some m;
              cctp_attestation = some a;
              updated_at = now;
            })
            rows (λ r k. k))
        (λ tx now rows.
          update_keeps env row.op_id
            (λ r. record r { status = relayed; dest_tx_hash = some tx; updated_at = now }) rows
            (λ r k e. cc))
        (λ now rows. fail_keeps env row.op_id now rows) s j)

  fail_rows_keeps :
      (l : List ReserveRow) (s : State)
      → All (IsJustified env) s.reserve_ops
      → All (IsJustified env) (fail_rows env l s).reserve_ops
  unfolding fail_rows
  fail_rows_keeps [] s j = j
  fail_rows_keeps (row ∷ l) s j =
      fail_rows_keeps l (write env (update_failed row.op_id) s)
        (elim (Bool-cases (env.database_up s.net.tick)) [
          | inl up ↦ rw up (fail_keeps env row.op_id (env.database_now s.net.tick) s.reserve_ops j)
          | inr down ↦ rw down j
        ])

  watcher_keeps :
      (secs : ℕ) (s : State)
      → IsUnique s.reserve_ops
      → All (IsJustified env) s.reserve_ops
      → All (IsJustified env) (run_watcher_cycle env secs s).reserve_ops
  unfolding run_watcher_cycle time_out_stuck
  watcher_keeps secs s u j =
      let s' = watch_chains env s.active_chains s.decommissioned_chains env.rpc_urls s in
      let (u', j') =
        scan-cases env (λ rows. IsUnique rows × All (IsJustified env) rows)
          (λ chain m row now rows seen found p. (
            update-IsUnique row.op_id (λ r. record r { status = completed; updated_at = now }) rows
                (λ r. refl) p.0,
            complete_keeps env chain m row now rows seen found p.0 p.1,
          ))
          s (u, j) in
      fail_rows_keeps
        (if env.database_up s'.net.tick
          then list_stuck (env.database_now s'.net.tick) secs s'.reserve_ops
          else [])
        (later s') j'

  settle_keeps :
      (id : Bytes) (r : Result (Bytes × Logs)) (s : State)
      → All (IsJustified env) s.reserve_ops
      → All (IsJustified env) (settle_reserve env id r s).reserve_ops
  unfolding settle_reserve
  settle_keeps id (ok (tx, logs)) s j = elim (Bool-cases (env.database_up s.net.tick)) [
    | inl up ↦ rw up (
        update_keeps env id
          (λ r. record r {
            status = submitted;
            source_tx_hash = some tx;
            bridge_message_id =
                extract_reserve_bridge_initiated_message_id env.reserve_bridge_initiated_topic logs;
            updated_at = env.database_now s.net.tick;
          })
          s.reserve_ops (λ r k e. cc) j)
    | inr down ↦ rw down j
  ]
  settle_keeps id (err e) s j = elim (Bool-cases (env.database_up s.net.tick)) [
    | inl up ↦ rw up (fail_keeps env id (env.database_now s.net.tick) s.reserve_ops j)
    | inr down ↦ rw down j
  ]

  insert_keeps :
      (id : Bytes) (source dest amount : ℕ) (bridge_type : Bytes) (now : ℕ) (rows : List ReserveRow)
      → All (IsJustified env) rows
      → All (IsJustified env) (insert_reserve_op id source dest amount bridge_type now rows)
  unfolding insert_reserve_op
  insert_keeps id source dest amount bridge_type now rows j =
      elim (Bool-cases (reserve_op_exists id rows)) [
        | inl old ↦ rw old j
        | inr new ↦ rw new (λ e. cc, j)
      ]

  commit_keeps :
      (op : Op) (rpc bank : Bytes) (s : State)
      → All (IsJustified env) s.reserve_ops
      → All (IsJustified env) (commit_reserve env op rpc bank s).reserve_ops
  unfolding commit_reserve
  commit_keeps op rpc bank s j =
      let id = reserve_op_id op (env.ts_ms s.net.tick) in
      let s' = write env (insert_reserve_op id op.source op.dest op.amount (codes "CCTP")) s in
      let (r, net) =
        submit_bridge env (bridge_reserve_call env op.source rpc bank op.dest op.amount) s'.net in
      settle_keeps id r (record s' { net = net })
        (elim (Bool-cases (env.database_up s.net.tick)) [
          | inl up ↦ rw up (
              insert_keeps id op.source op.dest op.amount (codes "CCTP")
                (env.database_now s.net.tick) s.reserve_ops j)
          | inr down ↦ rw down j
        ])

  depth_keeps :
      (op : Op) (rpc bank : Bytes) (d : Option ℕ) (s : State)
      → All (IsJustified env) s.reserve_ops
      → All (IsJustified env) (with_reserve_depth env op rpc bank d s).reserve_ops
  unfolding with_reserve_depth on_reserve_decision
  depth_keeps op rpc bank none s j = j
  depth_keeps op rpc bank (some depth) s j =
      decided (evaluate_rebalance_op depth op.amount (reserve_in_flight_now env op s))
    where
      decided :
          (d : RebalanceOpDecision)
          → All (IsJustified env) (on_reserve_decision env op rpc bank d (later s)).reserve_ops
      decided submit = commit_keeps op rpc bank (later s) j
      decided skip_insufficient_depth = j
      decided skip_op_in_flight = j

  bridge_keeps :
      (op : Op) (s : State)
      → All (IsJustified env) s.reserve_ops
      → All (IsJustified env) (bridge_op env op s).reserve_ops
  unfolding bridge_op
  bridge_keeps op s j = elim (Option-cases (get op.source env.rpc_urls)) [
    | inl no_rpc ↦ rw (no_rpc, bridge_op) j
    | inr (rpc, has_rpc) ↦ elim (Option-cases (get op.source env.contract_addresses)) [
      | inl no_bank ↦ rw (has_rpc, no_bank, bridge_op) j
      | inr (bank, has_bank) ↦
          rw (has_rpc, has_bank, bridge_op)
            (depth_keeps op rpc bank
              (env.node.fetch_u256_view s.net.tick rpc bank env.reserve_depth_selector) (later s) j)
    ]
  ]

  Step-keeps :
      {s t : State}
      → Step env s t
      → IsUnique s.reserve_ops
      → All (IsJustified env) s.reserve_ops
      → All (IsJustified env) t.reserve_ops
  unfolding relayer_round
  Step-keeps {s} (planned op fresh) u j = bridge_keeps op s j
  Step-keeps {s} relay_round u j =
      relay_rows_keeps
        (if env.database_up s.net.tick then list_awaiting_attestation s.reserve_ops else [])
        (later s) j
  Step-keeps {s} (watched secs) u j = watcher_keeps secs s u j
  Step-keeps (told active decommissioned) u j = j
  Step-keeps waited u j = j

-- In whatever order rounds of the three loops follow, if each round of the planner that starts an
-- operation finds its identifier new, and all completed rows were justified before, they are
-- afterwards: for each, a node of its destination chain was asked for the logs of the topic of
-- `ReserveBridgeCompleted` at that chain's bank contract, and answered with one that names its
-- message.
pub Run-IsJustified :
    (env : Env) {s t : State}
    → IsUnique s.reserve_ops
    → All (IsJustified env) s.reserve_ops
    → Run env s t
    → All (IsJustified env) t.reserve_ops
Run-IsJustified env u j here = j
Run-IsJustified env u j (next run step) =
    let before = Run-Advances env u run in
    Step-keeps env step before.unique (Run-IsJustified env u j run)
