-- ===== src/Decommission/Bridges.antt =====
-- The calls of the bank in a drain, services/treasury/src/decommission.rs.
use web_3_bank.Prelude.{
  ℕ, ◌+◌, ◌≡◌, ◌≢◌, refl, true, false, Bool-cases, inl, inr, List, [], ◌∷◌, ◌++◌, ◌==◌, Bytes, All,
  All-append, arith,
}
use mathlib.Core.List.{append_assoc}
use mathlib.Core.List.{Mem, mem-cons_of_mem, mem-cons_self}
use web_3_bank.Decommission.Ops.{
  pending, contains_holder, op_id_of, insert_holder_op, mark_holder_submitted,
}
use web_3_bank.Decommission.Drain.{
  HolderBalance, DrainPlan, DrainOutcome, drained, paused_target_inactive, BridgeReceipt,
  PortResult, done, refused, Ports, BankCall, bridge_call, pool_call, reserve_call, State, write,
  call_bank, alert, after_home, after_bridge, drain_holder, drain_holders, drain_pool,
  drain_reserve, drain_liquidity, paused_alert, completed_now, drain_all, run_drain_plan,
}

-- The calls from one state to the next all satisfy a predicate.
pub record Calls (P : BankCall → Type 0) (s s' : State) : Type 0 where
  pub new : List BankCall
  pub extended : s'.bank_calls ≡ new ++ s.bank_calls
  pub all : All P new

Calls-none : (P : BankCall → Type 0) (s s' : State) → s'.bank_calls ≡ s.bank_calls → Calls P s s'
Calls-none P s s' e = record { new = []; extended = e; all = tt }

Calls-one :
    (P : BankCall → Type 0) (call : BankCall) (s s' : State)
    → P call
    → s'.bank_calls ≡ call ∷ s.bank_calls
    → Calls P s s'
Calls-one P call s s' p e = record { new = call ∷ []; extended = e; all = (p, tt) }

Calls-trans :
    (P : BankCall → Type 0) (s s' s'' : State) → Calls P s s' → Calls P s' s'' → Calls P s s''
Calls-trans P s s' s'' c d = record {
  new = d.new ++ c.new;
  extended = rw (d.extended, c.extended) (rw append_assoc);
  all = All-append P d.new c.new d.all c.all;
}

module _ (ports : Ports) (plan : DrainPlan) (holder : HolderBalance) (id : Bytes) where
  after_home-calls :
      (r : PortResult (Unit {0})) (s : State)
      → (after_home ports id r s).1.bank_calls ≡ s.bank_calls
  unfolding after_home
  after_home-calls (refused e) s = refl
  after_home-calls (done u) s = refl

  after_bridge-calls :
      (r : PortResult BridgeReceipt) (s : State)
      → (after_bridge ports plan holder id r s).1.bank_calls ≡ s.bank_calls
  unfolding after_bridge
  after_bridge-calls (refused e) s = refl
  after_bridge-calls (done receipt) s =
      let s' =
        write ports (mark_holder_submitted id receipt.src_message_id receipt.dst_tx_hash) s in
      after_home-calls (ports.set_user_home_chain s'.tick holder.address plan.target_chain)
        (record s' { tick = s'.tick + 1; home_updates = holder.address ∷ s'.home_updates })

pub drain_holder-calls :
    (ports : Ports) (plan : DrainPlan) (holder : HolderBalance) (s : State)
    → (drain_holder ports plan holder s).1.bank_calls
      ≡ bridge_call plan.source_chain plan.target_chain holder ∷ s.bank_calls
unfolding drain_holder
drain_holder-calls ports plan holder s =
    let id = op_id_of plan.source_chain plan.target_chain holder.address in
    let s' =
      write ports
        (insert_holder_op id plan.source_chain plan.target_chain holder.address holder.amount
          pending)
        s in
    after_bridge-calls ports plan holder id
      (ports.bridge_holder s'.tick plan.source_chain plan.target_chain holder.address holder.amount)
      (call_bank (bridge_call plan.source_chain plan.target_chain holder) s')

-- A call that the plan allows: the bridge of one of its holders, who is not completed, with its
-- balance, or the drain of its pool or its reserve, if that is not 0; all from its source to its
-- target.
pub data IsAllowed (plan : DrainPlan) (completed : List Bytes) : BankCall → Type 0 where
  bridges :
      (holder : HolderBalance)
      → Mem holder plan.holders
      → contains_holder holder.address completed ≡ false
      → IsAllowed plan completed (bridge_call plan.source_chain plan.target_chain holder)
  pools :
      plan.pool_amount ≢ 0
      → IsAllowed plan completed (pool_call plan.source_chain plan.target_chain plan.pool_amount)
  reserves :
      plan.reserve_amount ≢ 0
      → IsAllowed plan completed
          (reserve_call plan.source_chain plan.target_chain plan.reserve_amount)

module _ (ports : Ports) (plan : DrainPlan) (completed : List Bytes) where
  drain_holders-Calls :
      (holders : List HolderBalance)
      → ((h : HolderBalance) → Mem h holders → Mem h plan.holders)
      → (s : State)
      → Calls (IsAllowed plan completed) s (drain_holders ports plan completed holders s).1
  unfolding drain_holders
  drain_holders-Calls [] sub s = Calls-none (IsAllowed plan completed) s s refl
  drain_holders-Calls (holder ∷ holders) sub s =
      let deeper = λ (h : HolderBalance) (m : Mem h holders). sub h (mem-cons_of_mem holder m) in
      let s' = (drain_holder ports plan holder s).1 in
      elim (Bool-cases (contains_holder holder.address completed)) [
        | inl old ↦ rw old (drain_holders-Calls holders deeper s)
        | inr new ↦
            let one =
              Calls-one (IsAllowed plan completed)
                (bridge_call plan.source_chain plan.target_chain holder) s s'
                (bridges holder (sub holder mem-cons_self) new)
                (drain_holder-calls ports plan holder s) in
            rw new (
              Calls-trans (IsAllowed plan completed) s s'
                (drain_holders ports plan completed holders s').1 one
                (drain_holders-Calls holders deeper s'))
      ]

  drain_pool-Calls : (s : State) → Calls (IsAllowed plan completed) s (drain_pool plan s)
  unfolding drain_pool
  drain_pool-Calls s = elim (Bool-cases (plan.pool_amount == 0)) [
    | inl none_left ↦ rw none_left (Calls-none (IsAllowed plan completed) s s refl)
    | inr left ↦
        let call = pool_call plan.source_chain plan.target_chain plan.pool_amount in
        rw left (
          Calls-one (IsAllowed plan completed) call s (call_bank call s) (pools (ground arith))
            refl)
  ]

  drain_reserve-Calls : (s : State) → Calls (IsAllowed plan completed) s (drain_reserve plan s)
  unfolding drain_reserve
  drain_reserve-Calls s = elim (Bool-cases (plan.reserve_amount == 0)) [
    | inl none_left ↦ rw none_left (Calls-none (IsAllowed plan completed) s s refl)
    | inr left ↦
        let call = reserve_call plan.source_chain plan.target_chain plan.reserve_amount in
        rw left (
          Calls-one (IsAllowed plan completed) call s (call_bank call s) (reserves (ground arith))
            refl)
  ]

-- How a drain may end.
pub data DrainEnd (ports : Ports) (plan : DrainPlan) (s : State)
    : DrainOutcome → State → Type 0 where
  stopped :
      (s' : State)
      → ports.is_chain_active s.tick plan.target_chain ≡ false
      → s'.bank_calls ≡ s.bank_calls
      → s'.ops ≡ s.ops
      → DrainEnd ports plan s paused_target_inactive s'
  ran :
      (n : ℕ) (s' : State)
      → ports.is_chain_active s.tick plan.target_chain ≡ true
      → Calls (IsAllowed plan (completed_now ports plan (record s { tick = s.tick + 1 }))) s s'
      → DrainEnd ports plan s (drained n) s'

module _ (ports : Ports) (plan : DrainPlan) where
  drain_all-Calls :
      (s : State) → Calls (IsAllowed plan (completed_now ports plan s)) s (drain_all ports plan s).1
  unfolding drain_all drain_liquidity
  drain_all-Calls s =
      let completed = completed_now ports plan s in
      let P = IsAllowed plan completed in
      let s' =
        (drain_holders ports plan completed plan.holders (record s { tick = s.tick + 1 })).1 in
      let pooled = drain_pool plan s' in
      let c =
        drain_holders-Calls ports plan completed plan.holders (λ h m. m)
          (record s { tick = s.tick + 1 }) in
      let d =
        Calls-trans P s' pooled (drain_reserve plan pooled)
          (drain_pool-Calls ports plan completed s')
          (drain_reserve-Calls ports plan completed pooled) in
      let e = Calls-trans P (record s { tick = s.tick + 1 }) s' (drain_reserve plan pooled) c d in
      record { new = e.new; extended = e.extended; all = e.all }

  -- A drain calls the bank only as its plan allows. If the target chain is not active when the drain
  -- begins, nothing is called and no row changes. If it is active then, whatever it is afterwards, each
  -- call is the bridge of one of the plan's holders, who is not on record as completed, with its
  -- balance, or the drain of the plan's pool or reserve, if that is not 0; all from the plan's source
  -- to its target.
  pub run_drain_plan-DrainEnd :
      (s : State)
      → DrainEnd ports plan s (run_drain_plan ports plan s).0 (run_drain_plan ports plan s).1
  unfolding run_drain_plan drain_all
  run_drain_plan-DrainEnd s = elim (Bool-cases (ports.is_chain_active s.tick plan.target_chain)) [
    | inl live ↦
        let later = record s { tick = s.tick + 1 } in
        let c = drain_all-Calls later in
        let (n, s') =
          drain_holders ports plan (completed_now ports plan later) plan.holders
            (record later { tick = later.tick + 1 }) in
        rw live (
          ran n (drain_all ports plan later).1 live
            (record { new = c.new; extended = c.extended; all = c.all }))
    | inr off ↦ rw off (stopped (alert paused_alert (record s { tick = s.tick + 1 })) off refl refl)
  ]
