-- ===== src/Rebalance/Plan.antt =====
-- `compute_rebalance_ops` as a whole.
use web_3_bank.Prelude.{ℕ, ◌≤◌, ◌<◌, ◌≡◌, ◌≢◌, min, Option, some, none, List, arith, All}
use web_3_bank.Rebalance.{
  Pool, Op, total, sort_by_amount, enough_rounds, match_loop, compute_rebalance_ops,
}
use web_3_bank.Rebalance.Matching.{total_moved, match_loop-total}
use web_3_bank.Rebalance.Bounds.{
  amount_at, moved_from, moved_into, Fits, match_loop-moved_from, match_loop-moved_into,
  match_loop-Fits,
}
use web_3_bank.Rebalance.Sorting.{total-sort, length-sort, amount_at-sort}
use web_3_bank.Rebalance.Termination.{match_loop-ends, match_loop_stuck}

-- Unless the cap is 0, the planner ends, and what it moves in all is the smaller of the total
-- surplus and the total deficit.
pub compute_rebalance_ops-total_moved :
    (surpluses deficits : List Pool) (cap : Option ℕ)
    → cap ≢ some 0
    → (ops : List Op) × (compute_rebalance_ops surpluses deficits cap ≡ some ops)
      × (total_moved ops ≡ min (total surpluses) (total deficits))
unfolding compute_rebalance_ops
compute_rebalance_ops-total_moved sur def cap c =
    let s = sort_by_amount sur in
    let d = sort_by_amount def in
    let (ops, e) =
      match_loop-ends (enough_rounds sur def) cap s d c
        (omega (arith, total-sort sur, length-sort sur, length-sort def)) in
    (
      ops,
      e,
      omega (
        arith,
        match_loop-total (enough_rounds sur def) cap s d e,
        total-sort sur,
        total-sort def,
      ),
    )

-- In every plan no chain gives more than its surplus or gets more than its deficit, and every
-- operation moves more than 0 and at most the cap.
pub compute_rebalance_ops_bounds :
    (surpluses deficits : List Pool) (cap : Option ℕ) {ops : List Op}
    → compute_rebalance_ops surpluses deficits cap ≡ some ops
    → ((c : ℕ) → moved_from c ops ≤ amount_at c surpluses)
      × ((c : ℕ) → moved_into c ops ≤ amount_at c deficits)
      × All (Fits cap) ops
unfolding compute_rebalance_ops
compute_rebalance_ops_bounds sur def cap {ops} h =
    let f = enough_rounds sur def in
    let s = sort_by_amount sur in
    let d = sort_by_amount def in
    (
      λ c. omega (arith, match_loop-moved_from c f cap s d h, amount_at-sort c sur),
      λ c. omega (arith, match_loop-moved_into c f cap s d h, amount_at-sort c def),
      match_loop-Fits f cap s d h,
    )

-- A cap of 0 hangs the planner: where there is a surplus and a deficit, the loop over the sorted
-- vectors has not ended after any number of rounds.
zero_cap_hangs :
    (rounds : ℕ) (surpluses deficits : List Pool)
    → 0 < total surpluses
    → 0 < total deficits
    → match_loop rounds (some 0) (sort_by_amount surpluses) (sort_by_amount deficits) ≡ none
zero_cap_hangs rounds sur def p q =
    match_loop_stuck rounds (sort_by_amount sur) (sort_by_amount def)
      (omega (arith, total-sort sur)) (omega (arith, total-sort def))
