-- ===== src/Tests/Planning.antt =====
-- Plans and chunks at the inputs of the unit tests of rebalance.rs and cold_path.rs.
use web_3_bank.Prelude.{ℕ, ◌/◌, ◌≤◌, ◌≡◌, refl, none, some, List, [], ◌∷◌, arith, All, true}
use web_3_bank.Rebalance.{Pool, Op, total, compute_rebalance_ops}
use web_3_bank.Rebalance.Matching.{total_moved}
use web_3_bank.Rebalance.Bounds.{amount_at, moved_from, moved_into, Fits}
use web_3_bank.Rebalance.Plan.{compute_rebalance_ops-total_moved, compute_rebalance_ops_bounds}
use web_3_bank.ColdPath.Chunks.{split_amount_by_cap, IsSplit, split_amount_by_cap-IsSplit}
use web_3_bank.ColdPath.Planner.{
  total_depth, target_depth, any_deficit, deficits, plan_rebalance, plan_reserve,
}
use web_3_bank.ColdPath.Plans.{Approaches, plan_rebalance-Approaches, plan_fills_deficits}

abbrev pool : ℕ → ℕ → Pool
pool c a = record { chain = c; amount = a }

abbrev op : ℕ → ℕ → ℕ → Op
op s d a = record { source = s; dest = d; amount = a }

abbrev one_surplus : List Pool
one_surplus = pool 1 267 ∷ []

abbrev two_deficits : List Pool
two_deficits = pool 2 34 ∷ pool 3 233 ∷ []

rebalance_ops_basic :
    compute_rebalance_ops one_surplus two_deficits none ≡ some (op 1 3 233 ∷ op 1 2 34 ∷ [])
unfolding compute_rebalance_ops
rebalance_ops_basic = refl

rebalance_ops_capped :
    compute_rebalance_ops (pool 1 500 ∷ []) (pool 2 500 ∷ []) (some 200)
    ≡ some (op 1 2 200 ∷ op 1 2 200 ∷ op 1 2 100 ∷ [])
unfolding compute_rebalance_ops
rebalance_ops_capped = refl

compute_rebalance_ops-total_moved_example :
    (ops : List Op) × (compute_rebalance_ops one_surplus two_deficits (some 100) ≡ some ops)
    × (total_moved ops ≡ 267)
compute_rebalance_ops-total_moved_example =
    compute_rebalance_ops-total_moved one_surplus two_deficits (some 100) (λ e. cc)

compute_rebalance_ops_bounds_example :
    let ops = op 1 3 233 ∷ op 1 2 34 ∷ [] in
    ((c : ℕ) → moved_from c ops ≤ amount_at c one_surplus)
    × ((c : ℕ) → moved_into c ops ≤ amount_at c two_deficits)
    × All (Fits none) ops
compute_rebalance_ops_bounds_example =
    compute_rebalance_ops_bounds one_surplus two_deficits none rebalance_ops_basic

split_amount_by_on_chain_cap : split_amount_by_cap 500 200 ≡ some (200 ∷ 200 ∷ 100 ∷ [])
unfolding split_amount_by_cap
split_amount_by_on_chain_cap = refl

split_amount_by_cap-IsSplit_example :
    (chunks : List ℕ) × (split_amount_by_cap 500 200 ≡ some chunks) × IsSplit 500 200 chunks
split_amount_by_cap-IsSplit_example = split_amount_by_cap-IsSplit 500 200 (omega arith)

abbrev depths : List Pool
depths = pool 1 900 ∷ pool 2 100 ∷ pool 3 500 ∷ []

abbrev plan : List Op
plan = op 1 2 400 ∷ []

planned : plan_rebalance 5000 0 none depths ≡ some plan
unfolding plan_rebalance
planned = refl

reserve_planned : plan_reserve 5000 none depths ≡ some plan
unfolding plan_reserve
reserve_planned = refl

plan_rebalance-Approaches_example : Approaches (target_depth 0 (total_depth depths) 3) depths plan
plan_rebalance-Approaches_example =
    plan_rebalance-Approaches 5000 0 none depths (refl, (refl, (refl, tt))) planned

depths_deficit : any_deficit 5000 (total_depth depths / 3) depths ≡ true
unfolding any_deficit total_depth
depths_deficit = refl

plan_fills_deficits_example :
    (ops : List Op) × (plan_rebalance 5000 0 none depths ≡ some ops)
    × (total_moved ops ≡ total (deficits (total_depth depths / 3) depths))
plan_fills_deficits_example =
    plan_fills_deficits 5000 none depths (λ e. cc) (omega arith) (omega arith) (omega arith)
      depths_deficit
