-- ===== src/Decommission/Forgotten.antt =====
-- What a drain of services/treasury/src/decommission.rs leaves behind for the server.
use web_3_bank.Prelude.{
  ℕ, ◌+◌, ◌≡◌, refl, ap, ◌∙◌, true, false, Bool-cases, Option, none, some, inl, inr, ◌⊎◌, List, [],
  ◌∷◌, ◌==◌, Bytes, ◌===◌, ===_refl, All,
}
use web_3_bank.Decommission.Ops.{
  pending, submitted, completed, failed, status_text, DrainRow, op_exists, insert_holder_op,
  update_op, mark_holder_submitted, mark_holder_completed, mark_op_failed, contains_holder,
  op_id_of,
}
use web_3_bank.Decommission.Drain.{
  HolderBalance, DrainPlan, BridgeReceipt, PortResult, done, refused, Ports, bridge_call, call_bank,
  write, after_home, after_bridge, drain_holder, drain_holders, drain_pool, drain_reserve,
  drain_liquidity, completed_now, drain_all, run_drain_plan,
}
use web_3_bank.Decommission.Queries.{is_incomplete, has_incomplete_ops}
use web_3_bank.Decommission.Server.{Server, State, finish_drain}
use web_3_bank.Decommission.Drain

-- Every row is finished, but for those of an operation.
abbrev AllBut : Bytes → List DrainRow → Type 0
AllBut id = All (λ (r : DrainRow). (r.op_id === id ≡ true) ⊎ (is_incomplete r.status ≡ false))

finished-AllBut :
    (id : Bytes) (rows : List DrainRow) → has_incomplete_ops rows ≡ false → AllBut id rows
unfolding has_incomplete_ops
finished-AllBut id [] h = tt
finished-AllBut id (r ∷ rows) h = elim (Bool-cases (is_incomplete r.status)) [
  | inl left ↦ let no = rw left at h in cc
  | inr ended ↦ (inr ended, finished-AllBut id rows (rw ended at h))
]

insert-AllBut :
    (id : Bytes) (source target : ℕ) (holder : Bytes) (amount : ℕ) (rows : List DrainRow)
    → has_incomplete_ops rows ≡ false
    → AllBut id (insert_holder_op id source target holder amount pending rows)
unfolding insert_holder_op
insert-AllBut id source target holder amount rows h = elim (Bool-cases (op_exists id rows)) [
  | inl old ↦ rw old (finished-AllBut id rows h)
  | inr new ↦ rw new (inl (===_refl id), finished-AllBut id rows h)
]

-- An update of the operation that keeps its identifier.
keep-AllBut :
    (f : DrainRow → DrainRow) (id : Bytes) (rows : List DrainRow)
    → ((r : DrainRow) → (f r).op_id ≡ r.op_id)
    → AllBut id rows
    → AllBut id (update_op f id rows)
keep-AllBut f id [] same h = tt
keep-AllBut f id (r ∷ rows) same h = elim (Bool-cases (r.op_id === id)) [
  | inl own ↦ rw own (inl (rw (same r) own), keep-AllBut f id rows same h.1)
  | inr other ↦ rw other (h.0, keep-AllBut f id rows same h.1)
]

-- An update that finishes the operation.
settle-AllBut :
    (f : DrainRow → DrainRow) (id : Bytes) (rows : List DrainRow)
    → ((r : DrainRow) → is_incomplete (f r).status ≡ false)
    → AllBut id rows
    → has_incomplete_ops (update_op f id rows) ≡ false
unfolding has_incomplete_ops
settle-AllBut f id [] ends h = refl
settle-AllBut f id (r ∷ rows) ends h = elim (Bool-cases (r.op_id === id)) [
  | inl own ↦ rw (own, ends r) (settle-AllBut f id rows ends h.1)
  | inr other ↦ elim h.0 [
    | inl own ↦ cc
    | inr ended ↦ rw (other, ended) (settle-AllBut f id rows ends h.1)
  ]
]

failed-finished :
    (id reason : Bytes) (rows : List DrainRow)
    → AllBut id rows
    → has_incomplete_ops (mark_op_failed id reason rows) ≡ false
unfolding mark_op_failed is_incomplete status_text ◌===◌
failed-finished id reason rows h =
    settle-AllBut (λ r. record r { status = status_text failed; failure_reason = some reason }) id
      rows (λ r. refl) h

completed-finished :
    (id : Bytes) (rows : List DrainRow)
    → AllBut id rows
    → has_incomplete_ops (mark_holder_completed id rows) ≡ false
unfolding mark_holder_completed is_incomplete status_text ◌===◌
completed-finished id rows h =
    settle-AllBut (λ r. record r { status = status_text completed }) id rows (λ r. refl) h

submitted-AllBut :
    (id : Bytes) (message tx : Option Bytes) (rows : List DrainRow)
    → AllBut id rows
    → AllBut id (mark_holder_submitted id message tx rows)
unfolding mark_holder_submitted
submitted-AllBut id message tx rows h =
    keep-AllBut
      (λ r. record r { status = status_text submitted; src_message_id = message; dst_tx_hash = tx })
      id rows (λ r. refl) h

module _ (ports : Ports) (up : (t : ℕ) → ports.database_up t ≡ true) (plan : DrainPlan) where
  home-finished :
      (id : Bytes) (result : PortResult (Unit {0})) (s : Drain.State)
      → AllBut id s.ops
      → has_incomplete_ops (after_home ports id result s).1.ops ≡ false
  unfolding after_home
  home-finished id (refused e) s h = rw (up s.tick) (failed-finished id e s.ops h)
  home-finished id (done u) s h = rw (up s.tick) (completed-finished id s.ops h)

  bridge-finished :
      (holder : HolderBalance) (id : Bytes) (result : PortResult BridgeReceipt) (s : Drain.State)
      → AllBut id s.ops
      → has_incomplete_ops (after_bridge ports plan holder id result s).1.ops ≡ false
  unfolding after_bridge
  bridge-finished holder id (refused e) s h = rw (up s.tick) (failed-finished id e s.ops h)
  bridge-finished holder id (done receipt) s h =
      let s' =
        write ports (mark_holder_submitted id receipt.src_message_id receipt.dst_tx_hash) s in
      home-finished id (ports.set_user_home_chain s'.tick holder.address plan.target_chain)
        (record s' { tick = s'.tick + 1; home_updates = holder.address ∷ s'.home_updates })
        (rw (up s.tick) (submitted-AllBut id receipt.src_message_id receipt.dst_tx_hash s.ops h))

  holder-finished :
      (holder : HolderBalance) (s : Drain.State)
      → has_incomplete_ops s.ops ≡ false
      → has_incomplete_ops (drain_holder ports plan holder s).1.ops ≡ false
  unfolding drain_holder
  holder-finished holder s h =
      let id = op_id_of plan.source_chain plan.target_chain holder.address in
      let s' =
        write ports
          (insert_holder_op id plan.source_chain plan.target_chain holder.address holder.amount
            pending)
          s in
      bridge-finished holder id
        (ports.bridge_holder s'.tick plan.source_chain plan.target_chain holder.address
          holder.amount)
        (call_bank (bridge_call plan.source_chain plan.target_chain holder) s')
        (rw (up s.tick) (
          insert-AllBut id plan.source_chain plan.target_chain holder.address holder.amount s.ops
            h))

  holders-finished :
      (old_holders : List Bytes) (holders : List HolderBalance) (s : Drain.State)
      → has_incomplete_ops s.ops ≡ false
      → has_incomplete_ops (drain_holders ports plan old_holders holders s).1.ops ≡ false
  unfolding drain_holders
  holders-finished old_holders [] s h = h
  holders-finished old_holders (holder ∷ holders) s h =
      elim (Bool-cases (contains_holder holder.address old_holders)) [
        | inl old ↦ rw old (holders-finished old_holders holders s h)
        | inr new ↦ rw new (
            holders-finished old_holders holders (drain_holder ports plan holder s).1
              (holder-finished holder s h))
      ]

  liquidity-ops : (s : Drain.State) → (drain_liquidity plan s).ops ≡ s.ops
  unfolding drain_liquidity drain_pool drain_reserve
  liquidity-ops s = elim (Bool-cases (plan.pool_amount == 0)) [
    | inl z ↦ elim (Bool-cases (plan.reserve_amount == 0)) [
      | inl z' ↦ rw (z, z') refl
      | inr p' ↦ rw (z, p') refl
    ]
    | inr p ↦ elim (Bool-cases (plan.reserve_amount == 0)) [
      | inl z' ↦ rw (p, z') refl
      | inr p' ↦ rw (p, p') refl
    ]
  ]

  run-finished :
      (s : Drain.State)
      → has_incomplete_ops s.ops ≡ false
      → has_incomplete_ops (run_drain_plan ports plan s).1.ops ≡ false
  unfolding run_drain_plan drain_all
  run-finished s h =
      let later : Drain.State = record s { tick = s.tick + 1 } in
      let old_holders = completed_now ports plan later in
      let started : Drain.State = record later { tick = later.tick + 1 } in
      let s' = (drain_holders ports plan old_holders plan.holders started).1 in
      elim (Bool-cases (ports.is_chain_active s.tick plan.target_chain)) [
        | inl live ↦ rw live (
            ap has_incomplete_ops (liquidity-ops s')
            ∙ holders-finished old_holders plan.holders started h)
        | inr off ↦ rw off h
      ]

-- If the database answers and no row is unfinished before a drain, then no drain is resumable after
-- it, whatever bridges and home-chain updates failed in it.
pub finish_drain_forgets :
    (v : Server) (id : Bytes) (plan : DrainPlan) (s : State)
    → ((t : ℕ) → v.ports.database_up t ≡ true)
    → has_incomplete_ops s.drain.ops ≡ false
    → (finish_drain v id plan s).resumable_drain_id ≡ none
unfolding finish_drain
finish_drain_forgets v id plan s up h =
    let drained = (run_drain_plan v.ports plan s.drain).1 in
    rw (up drained.tick, run-finished v.ports up plan s.drain h) refl
