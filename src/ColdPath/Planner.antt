-- ===== src/ColdPath/Planner.antt =====
-- What a cycle plans from the depths it read: `run_rebalance_cycle` of
-- services/treasury/src/cold_path.rs and `run_planner_cycle` of reserve_path.rs. Amounts are 256-bit
-- words, whose sums and products wrap.
use web_3_bank.Prelude.{
  ℕ, ◌+◌, ◌-◌, ◌*◌, ◌/◌, ◌%◌, ◌^◌, Bool, false, ◌||◌, Option, some, List, [], ◌∷◌, ltb, ◌==◌,
  if◌then◌else◌, length,
}
use web_3_bank.Rebalance.{Pool, Op, compute_rebalance_ops}

abbrev pub u256_mod : ℕ
u256_mod = 2 ^ 256

-- `depths.values().fold(U256::ZERO, |acc, &d| acc + d)`
unfoldable pub total_from : ℕ → List Pool → ℕ
total_from acc [] = acc
total_from acc (p ∷ ps) = total_from ((acc + p.amount) % u256_mod) ps

unfoldable pub total_depth : List Pool → ℕ
unfolding total_from
total_depth ps = total_from 0 ps

-- The closure `target_depth`, with `cold_path_target_bps`; 0 stands for an equal distribution.
unfoldable pub target_depth : ℕ → ℕ → ℕ → ℕ
target_depth target_bps total n =
    if target_bps == 0 then total / n else (total * target_bps % u256_mod) / 10000

-- `depth * 10_000 / target < min_bps`
below_min : ℕ → ℕ → Pool → Bool
below_min min_bps target p = ltb ((p.amount * 10000 % u256_mod) / target) min_bps

unfoldable pub any_deficit : ℕ → ℕ → List Pool → Bool
unfolding below_min
any_deficit min_bps target [] = false
any_deficit min_bps target (p ∷ ps) =
    (if target == 0 then false else below_min min_bps target p) || any_deficit min_bps target ps

-- The two vectors of step 3.
unfoldable pub surpluses : ℕ → List Pool → List Pool
surpluses target [] = []
surpluses target (p ∷ ps) =
    if ltb target p.amount
    then record p { amount = p.amount - target } ∷ surpluses target ps
    else surpluses target ps

unfoldable pub deficits : ℕ → List Pool → List Pool
deficits target [] = []
deficits target (p ∷ ps) =
    if ltb p.amount target
    then record p { amount = target - p.amount } ∷ deficits target ps
    else deficits target ps

-- Step 4 for a target; `none`: the matching does not end.
unfoldable pub match_to_target : ℕ → Option ℕ → List Pool → Option (List Op)
unfolding surpluses deficits compute_rebalance_ops
match_to_target target max_per_op depths =
    compute_rebalance_ops (surpluses target depths) (deficits target depths) max_per_op

-- Steps 1 to 4 of the cold path, from the depths on. The chains are those with a depth; a cycle
-- with fewer than two is skipped before.
unfoldable pub plan_rebalance : ℕ → ℕ → Option ℕ → List Pool → Option (List Op)
unfolding total_depth target_depth any_deficit match_to_target
plan_rebalance min_bps target_bps max_wei_per_op depths =
    let total = total_depth depths in
    let target = target_depth target_bps total (length depths) in
    let ops = match_to_target target max_wei_per_op depths in
    if ltb (length depths) 2
    then some []
    else (if total == 0
        then some []
        else (if any_deficit min_bps target depths then ops else some []))

-- The reserve planner: always an equal distribution, and a target of 0 ends the cycle.
unfoldable pub plan_reserve : ℕ → Option ℕ → List Pool → Option (List Op)
unfolding total_depth any_deficit match_to_target
plan_reserve min_bps max_wei_per_op depths =
    let total = total_depth depths in
    let target = total / length depths in
    let ops = match_to_target target max_wei_per_op depths in
    if ltb (length depths) 2
    then some []
    else (if total == 0
        then some []
        else (if target == 0
            then some []
            else (if any_deficit min_bps target depths then ops else some [])))
