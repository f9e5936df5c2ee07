-- ===== src/Decommission/Drain.antt =====
-- `run_drain_plan` and `handle_mark_decommissioning` of services/treasury/src/decommission.rs, with
-- the ports as parameters.
use web_3_bank.Prelude.{ℕ, ◌+◌, Bool, Option, List, [], ◌∷◌, ◌==◌, if◌then◌else◌, Bytes, codes}
use web_3_bank.Decommission.Ops.{
  pending, DrainRow, completed_holders, insert_holder_op, mark_holder_submitted,
  mark_holder_completed, mark_op_failed, contains_holder, op_id_of,
}

pub record HolderBalance : Type 0 where
  pub address : Bytes
  pub amount : ℕ

pub record DrainPlan : Type 0 where
  pub source_chain : ℕ
  pub target_chain : ℕ
  pub holders : List HolderBalance
  pub pool_amount : ℕ
  pub reserve_amount : ℕ

pub data DrainOutcome : Type 0 where
  drained : ℕ → DrainOutcome
  paused_target_inactive : DrainOutcome

pub record BridgeReceipt : Type 0 where
  pub src_message_id : Option Bytes
  pub dst_tx_hash : Option Bytes

-- `Result<A, String>`
pub data PortResult (A : Type 0) : Type 0 where
  done : A → PortResult A
  refused : Bytes → PortResult A

-- The ports, each with the time of the call, and whether the database answers.
pub record Ports : Type 0 where
  pub database_up : ℕ → Bool
  pub is_chain_active : ℕ → ℕ → Bool
  pub holders_for_chain : ℕ → ℕ → List Bytes
  pub balance_of : ℕ → ℕ → Bytes → ℕ
  pub bridge_holder : ℕ → ℕ → ℕ → Bytes → ℕ → PortResult BridgeReceipt
  pub set_user_home_chain : ℕ → Bytes → ℕ → PortResult (Unit {0})

-- A call of the bank's port: the bridge of a holder, or the drain of the pool or of the reserve.
pub data BankCall : Type 0 where
  bridge_call : ℕ → ℕ → HolderBalance → BankCall
  pool_call reserve_call : ℕ → ℕ → ℕ → BankCall

-- The time, the table, and what was called, the last first.
pub record State : Type 0 where
  pub tick : ℕ
  pub ops : List DrainRow
  pub bank_calls : List BankCall
  pub home_updates : List Bytes
  pub alerts : List Bytes

abbrev pub write : Ports → (List DrainRow → List DrainRow) → State → State
write ports f s = record s {
  tick = s.tick + 1;
  ops = if ports.database_up s.tick then f s.ops else s.ops;
}

abbrev pub call_bank : BankCall → State → State
call_bank call s = record s { tick = s.tick + 1; bank_calls = call ∷ s.bank_calls }

abbrev pub alert : Bytes → State → State
alert message s = record s { tick = s.tick + 1; alerts = message ∷ s.alerts }

-- After the update of the holder's home chain: whether the holder counts as drained.
unfoldable pub after_home : Ports → Bytes → PortResult (Unit {0}) → State → ℕ × State
unfolding mark_op_failed mark_holder_completed
after_home ports id (refused e) s = (0, write ports (mark_op_failed id e) s)
after_home ports id (done u) s = (1, write ports (mark_holder_completed id) s)

-- After the bridge.
unfoldable pub after_bridge :
    Ports → DrainPlan → HolderBalance → Bytes → PortResult BridgeReceipt → State → ℕ × State
unfolding after_home mark_op_failed mark_holder_submitted
after_bridge ports plan holder id (refused e) s = (0, write ports (mark_op_failed id e) s)
after_bridge ports plan holder id (done receipt) s =
    let s' = write ports (mark_holder_submitted id receipt.src_message_id receipt.dst_tx_hash) s in
    after_home ports id (ports.set_user_home_chain s'.tick holder.address plan.target_chain)
      (record s' { tick = s'.tick + 1; home_updates = holder.address ∷ s'.home_updates })

-- One round of the loop, for a holder that is not completed.
unfoldable pub drain_holder : Ports → DrainPlan → HolderBalance → State → ℕ × State
unfolding after_bridge insert_holder_op op_id_of
drain_holder ports plan holder s =
    let id = op_id_of plan.source_chain plan.target_chain holder.address in
    let s' =
      write ports
        (insert_holder_op id plan.source_chain plan.target_chain holder.address holder.amount
          pending)
        s in
    after_bridge ports plan holder id
      (ports.bridge_holder s'.tick plan.source_chain plan.target_chain holder.address holder.amount)
      (call_bank (bridge_call plan.source_chain plan.target_chain holder) s')

unfoldable pub drain_holders :
    Ports → DrainPlan → List Bytes → List HolderBalance → State → ℕ × State
unfolding drain_holder contains_holder
drain_holders ports plan completed [] s = (0, s)
drain_holders ports plan completed (holder ∷ holders) s =
    let (n, s') = drain_holder ports plan holder s in
    let (k, s'') = drain_holders ports plan completed holders s' in
    let skipped = drain_holders ports plan completed holders s in
    if contains_holder holder.address completed then skipped else (n + k, s'')

-- The pool and the reserve, whose results are dropped.
unfoldable pub drain_pool : DrainPlan → State → State
drain_pool plan s =
    if plan.pool_amount == 0
    then s
    else call_bank (pool_call plan.source_chain plan.target_chain plan.pool_amount) s

unfoldable pub drain_reserve : DrainPlan → State → State
drain_reserve plan s =
    if plan.reserve_amount == 0
    then s
    else call_bank (reserve_call plan.source_chain plan.target_chain plan.reserve_amount) s

unfoldable pub drain_liquidity : DrainPlan → State → State
unfolding drain_pool drain_reserve
drain_liquidity plan s = drain_reserve plan (drain_pool plan s)

abbrev pub paused_alert : Bytes
paused_alert = codes "chain decommission drain paused: target chain inactive"

abbrev pub complete_alert : Bytes
complete_alert = codes "chain decommission drain complete: governance finalization ready"

-- The lowercased set of completed holders; a failed query reads as none.
unfoldable pub completed_now : Ports → DrainPlan → State → List Bytes
unfolding completed_holders
completed_now ports plan s =
    if ports.database_up s.tick
    then completed_holders plan.source_chain plan.target_chain s.ops
    else []

-- `run_drain_plan` on an active target.
unfoldable pub drain_all : Ports → DrainPlan → State → DrainOutcome × State
unfolding drain_holders drain_liquidity completed_now
drain_all ports plan s =
    let (n, s') =
      drain_holders ports plan (completed_now ports plan s) plan.holders
        (record s { tick = s.tick + 1 }) in
    (drained n, alert complete_alert (drain_liquidity plan s'))

unfoldable pub run_drain_plan : Ports → DrainPlan → State → DrainOutcome × State
unfolding drain_all
run_drain_plan ports plan s =
    let later = record s { tick = s.tick + 1 } in
    if ports.is_chain_active s.tick plan.target_chain
    then drain_all ports plan later
    else (paused_target_inactive, alert paused_alert later)

-- The holders with a balance; each balance is read at its time.
unfoldable pub resolve_holders : Ports → ℕ → ℕ → List Bytes → List HolderBalance
resolve_holders ports tick source [] = []
resolve_holders ports tick source (address ∷ rest) =
    let amount = ports.balance_of tick source address in
    let others = resolve_holders ports (tick + 1) source rest in
    if amount == 0 then others else record { address = address; amount = amount } ∷ others

abbrev ticks_after : ℕ → List Bytes → ℕ
ticks_after tick [] = tick
ticks_after tick (address ∷ rest) = ticks_after (tick + 1) rest

unfoldable pub handle_mark_decommissioning : Ports → ℕ → ℕ → ℕ → ℕ → State → DrainOutcome × State
unfolding run_drain_plan resolve_holders
handle_mark_decommissioning ports source target pool_amount reserve_amount s =
    let addresses = ports.holders_for_chain s.tick source in
    run_drain_plan ports
      (record {
        source_chain = source;
        target_chain = target;
        holders = resolve_holders ports (s.tick + 1) source addresses;
        pool_amount = pool_amount;
        reserve_amount = reserve_amount;
      })
      (record s { tick = ticks_after (s.tick + 1) addresses })
