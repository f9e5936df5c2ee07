-- ===== src/Rebalance.antt =====
-- The rebalancing algorithm of services/treasury/src/domain/rebalance.rs.
pub mod Matching
pub mod Bounds
pub mod Termination
pub mod Sorting
pub mod Plan
use web_3_bank.Prelude.{
  ℕ, zero, suc, ◌+◌, ◌-◌, ◌≤◌, ◌<◌, min, ◌≡◌, refl, Bool, true, false, Option, none, some, List, [],
  ◌∷◌, arith, ltb, leb, ◌==◌, if◌then◌else◌, length,
}

-- `(chain_id, amount)`; while the loop runs, the amount that remains.
pub record Pool : Type 0 where
  pub chain : ℕ
  pub amount : ℕ

-- `(source_chain_id, dest_chain_id, amount)`
pub record Op : Type 0 where
  pub source : ℕ
  pub dest : ℕ
  pub amount : ℕ

-- `sort_by_key(|(_, amount)| Reverse(*amount))`: the stable sort, largest first.
pub insert_by_amount : Pool → List Pool → List Pool
insert_by_amount p [] = p ∷ []
insert_by_amount p (q ∷ qs) =
    if leb q.amount p.amount then p ∷ q ∷ qs else q ∷ insert_by_amount p qs

pub sort_by_amount : List Pool → List Pool
unfolding insert_by_amount
sort_by_amount [] = []
sort_by_amount (p ∷ ps) = insert_by_amount p (sort_by_amount ps)

-- `if let Some(cap) = max_per_op { amount = amount.min(cap) }`
pub capped : Option ℕ → ℕ → ℕ
capped none a = a
capped (some cap) a = min a cap

-- The rest of a vector after its head's remaining amount has changed: `if rem.is_zero() { i += 1 }`.
pub advance : Pool → List Pool → List Pool
advance p ps = if p.amount == 0 then ps else p ∷ ps

-- `if !amount.is_zero() { ops.push(..) }`, before the operations of the later rounds.
pub push : Op → List Op → List Op
push op ops = if op.amount == 0 then ops else op ∷ ops

abbrev pub emit : Op → Option (List Op) → Option (List Op)
emit op none = none
emit op (some ops) = some (push op ops)

-- `compute_rebalance_ops`'s loop on the two vectors from `si` and `di` on, whose heads hold what
-- remains of `sur_rem[si]` and `def_rem[di]`. `none`: the fuel ran out.
pub match_loop : ℕ → Option ℕ → List Pool → List Pool → Option (List Op)
unfolding capped advance push
match_loop zero cap sur def = none
match_loop (suc f) cap [] def = some []
match_loop (suc f) cap (s ∷ ss) [] = some []
match_loop (suc f) cap (s ∷ ss) (d ∷ ds) =
    let amount = capped cap (min s.amount d.amount) in
    let skip_source = match_loop f cap ss (d ∷ ds) in
    let skip_dest = match_loop f cap (s ∷ ss) ds in
    let moved =
      emit (record { source = s.chain; dest = d.chain; amount = amount })
        (match_loop f cap (advance (record s { amount = s.amount - amount }) ss)
          (advance (record d { amount = d.amount - amount }) ds)) in
    if s.amount == 0 then skip_source else (if d.amount == 0 then skip_dest else moved)

abbrev pub total : List Pool → ℕ
total [] = 0
total (p ∷ ps) = p.amount + total ps

-- Rounds that are enough where the cap is not 0: each skips a vector's head or moves at least 1.
abbrev pub enough_rounds : List Pool → List Pool → ℕ
enough_rounds sur def = suc (length sur + length def + total sur)

unfoldable pub compute_rebalance_ops : List Pool → List Pool → Option ℕ → Option (List Op)
unfolding match_loop sort_by_amount
compute_rebalance_ops surpluses deficits max_per_op =
    match_loop (enough_rounds surpluses deficits) max_per_op (sort_by_amount surpluses)
      (sort_by_amount deficits)

pub data RebalanceOpDecision : Type 0 where
  submit skip_insufficient_depth skip_op_in_flight : RebalanceOpDecision

unfoldable pub evaluate_rebalance_op : ℕ → ℕ → Bool → RebalanceOpDecision
evaluate_rebalance_op live_depth required_amount op_in_flight =
    if ltb live_depth required_amount
    then skip_insufficient_depth
    else (if op_in_flight then skip_op_in_flight else submit)

-- An operation is submitted only if the live depth covers it and none is in flight.
pub submit_conditions :
    (depth amount : ℕ) (in_flight : Bool)
    → evaluate_rebalance_op depth amount in_flight ≡ submit
    → (amount ≤ depth) × (in_flight ≡ false)
unfolding evaluate_rebalance_op
submit_conditions depth amount true h = ground arith
submit_conditions depth amount false h = ground arith
