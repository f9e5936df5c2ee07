-- ===== src/ColdPath/Operations.antt =====
-- The transactions of one operation of services/treasury/src/cold_path.rs.
use web_3_bank.Prelude.{
  ℕ, ◌≤◌, ◌≡◌, refl, Bool, true, false, Option-cases, inl, inr, Option, none, some, List, ◌==◌,
  if◌then◌else◌, Bytes, arith,
}
use web_3_bank.Prelude.Dict.{get}
use web_3_bank.Rebalance.{
  Op, RebalanceOpDecision, submit, skip_insufficient_depth, skip_op_in_flight,
  evaluate_rebalance_op, submit_conditions,
}
use web_3_bank.ColdPath.Chunks.{split_amount_by_cap, IsSplit, split_amount_by_cap-IsSplit}
use web_3_bank.ColdPath.RebalanceOps.{insert_rebalance_op, update_rebalance_op_failed}
use web_3_bank.ColdPath.Cycle.{Env, State, later, write}
use web_3_bank.ColdPath.Parts.{Parts, submit_chunks-Parts}
use web_3_bank.ColdPath.Execute.{
  submit_split, with_cap, operation_id, commit, on_decision, in_flight_now, with_live_depth,
  execute_op,
}

-- How the round of an operation may end.
pub data OpEnd (env : Env) (op : Op) (s s' : State) : Type 0 where
  unsent : s'.net.sent ≡ s.net.sent → OpEnd env op s s'
  moved :
      (rpc bank : Bytes) (depth tick cap : ℕ) (chunks : List ℕ)
      → get op.source env.rpc_urls ≡ some rpc
      → get op.source env.contract_addresses ≡ some bank
      → env.node.fetch_u256_view s.net.tick rpc bank env.pool_depth_selector ≡ some depth
      → op.amount ≤ depth
      → in_flight_now env op (later s) ≡ false
      → env.node.fetch_u256_view tick rpc bank env.max_rebalance_amount_selector ≡ some cap
      → IsSplit op.amount cap chunks
      → Parts env op rpc bank cap chunks s.net s'.net
      → OpEnd env op s s'

module _ (env : Env) (op : Op) (s : State) (rpc bank : Bytes)
    (has_rpc : get op.source env.rpc_urls ≡ some rpc)
    (has_bank : get op.source env.contract_addresses ≡ some bank) where
  with_cap-OpEnd :
      (id : Bytes) (tick depth : ℕ) (c : Option ℕ) (s' : State)
      → env.node.fetch_u256_view s.net.tick rpc bank env.pool_depth_selector ≡ some depth
      → op.amount ≤ depth
      → in_flight_now env op (later s) ≡ false
      → env.node.fetch_u256_view tick rpc bank env.max_rebalance_amount_selector ≡ c
      → s'.net.sent ≡ s.net.sent
      → OpEnd env op s (with_cap env id op rpc bank c s')
  unfolding with_cap submit_split
  with_cap-OpEnd id tick depth none s' read covered free e same = unsent same
  with_cap-OpEnd id tick depth (some most) s' read covered free e same = under_cap (most == 0) refl
    where
      split_end :
          (o : Option (List ℕ)) (chunks : List ℕ)
          → IsSplit op.amount most chunks
          → o ≡ some chunks
          → OpEnd env op s (submit_split env id op rpc bank o s')
      split_end none chunks good found = cc
      split_end (some found) chunks good same_chunks =
          let is : found ≡ chunks = cc in
          let fine : IsSplit op.amount most found = rw is good in
          let t = submit_chunks-Parts env op rpc bank most id found s' fine.fit in
          moved rpc bank depth tick most found has_rpc has_bank read covered free e fine (record {
            new = t.new;
            extended = rw⁻¹ same t.extended;
            few = t.few;
            parts = t.parts;
            in_order = t.in_order;
          })

      under_cap :
          (b : Bool)
          → (most == 0) ≡ b
          → OpEnd env op s (
              if b
              then write env (update_rebalance_op_failed id) s'
              else submit_split env id op rpc bank (split_amount_by_cap op.amount most) s')
      under_cap true z = unsent same
      under_cap false p =
          let (chunks, split, good) = split_amount_by_cap-IsSplit op.amount most (ground arith) in
          split_end (split_amount_by_cap op.amount most) chunks good split

  on_decision-OpEnd :
      (d : RebalanceOpDecision) (depth : ℕ)
      → env.node.fetch_u256_view s.net.tick rpc bank env.pool_depth_selector ≡ some depth
      → evaluate_rebalance_op depth op.amount (in_flight_now env op (later s)) ≡ d
      → OpEnd env op s (on_decision env op rpc bank d (later (later s)))
  unfolding on_decision commit
  on_decision-OpEnd submit depth read e =
      let (covered, free) = submit_conditions depth op.amount (in_flight_now env op (later s)) e in
      let before = later (later s) in
      let id = operation_id op (env.ts_ms before.net.tick) in
      let noted =
        write env
          (insert_rebalance_op (env.database_now before.net.tick) id op.source op.dest op.amount)
          before in
      with_cap-OpEnd id noted.net.tick depth
        (env.node.fetch_u256_view noted.net.tick rpc bank env.max_rebalance_amount_selector)
        (later noted) read covered free refl refl
  on_decision-OpEnd skip_insufficient_depth depth read e = unsent refl
  on_decision-OpEnd skip_op_in_flight depth read e = unsent refl

  with_live_depth-OpEnd :
      (d : Option ℕ)
      → env.node.fetch_u256_view s.net.tick rpc bank env.pool_depth_selector ≡ d
      → OpEnd env op s (with_live_depth env op rpc bank d (later s))
  unfolding with_live_depth
  with_live_depth-OpEnd none read = unsent refl
  with_live_depth-OpEnd (some depth) read =
      on_decision-OpEnd (evaluate_rebalance_op depth op.amount (in_flight_now env op (later s)))
        depth read refl

-- Whatever the network and the database answer, the round of an operation either sends nothing, or
-- the live depth of its source covers it, no operation between its chains was found in flight, the
-- cap of the source's bank contract was read, and the operation was split into chunks that add up to
-- its amount and are no more than needed; then the chunks are taken in order, though the last ones may
-- be left out, and for each at most three transactions are sent, each the rebalance call of that
-- contract for this chunk's amount, which is more than 0 and at most the cap.
pub execute_op-OpEnd : (env : Env) (op : Op) (s : State) → OpEnd env op s (execute_op env op s)
unfolding execute_op
execute_op-OpEnd env op s = elim (Option-cases (get op.source env.rpc_urls)) [
  | inl no_rpc ↦ rw (no_rpc, execute_op) (unsent refl)
  | inr (rpc, has_rpc) ↦ elim (Option-cases (get op.source env.contract_addresses)) [
    | inl no_bank ↦ rw (has_rpc, no_bank, execute_op) (unsent refl)
    | inr (bank, has_bank) ↦
        rw (has_rpc, has_bank, execute_op)
          (with_live_depth-OpEnd env op s rpc bank has_rpc has_bank
            (env.node.fetch_u256_view s.net.tick rpc bank env.pool_depth_selector) refl)
  ]
]
