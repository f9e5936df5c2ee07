-- ===== src/Rebalance/Sorting.antt =====
-- The sort of `compute_rebalance_ops`.
use web_3_bank.Prelude.{ℕ, suc, ◌+◌, ◌≤◌, ◌≡◌, refl, List, [], ◌∷◌, arith, length}
use web_3_bank.Rebalance.{Pool, total, sort_by_amount, insert_by_amount}
use web_3_bank.Rebalance.Bounds.{amount_at}

total-insert : (p : Pool) (ps : List Pool) → total (insert_by_amount p ps) ≡ p.amount + total ps
unfolding insert_by_amount
total-insert p [] = refl
total-insert p (q ∷ qs) = ground (arith, total-insert p qs)

pub total-sort : (ps : List Pool) → total (sort_by_amount ps) ≡ total ps
unfolding sort_by_amount
total-sort [] = refl
total-sort (p ∷ ps) = omega (arith, total-insert p (sort_by_amount ps), total-sort ps)

length-insert : (p : Pool) (ps : List Pool) → length (insert_by_amount p ps) ≡ suc (length ps)
unfolding insert_by_amount
length-insert p [] = refl
length-insert p (q ∷ qs) = ground (arith, length-insert p qs)

pub length-sort : (ps : List Pool) → length (sort_by_amount ps) ≡ length ps
unfolding sort_by_amount
length-sort [] = refl
length-sort (p ∷ ps) = omega (arith, length-insert p (sort_by_amount ps), length-sort ps)

amount_at-insert :
    (c : ℕ) (p : Pool) (ps : List Pool) → amount_at c (insert_by_amount p ps) ≡ amount_at c (p ∷ ps)
unfolding insert_by_amount
amount_at-insert c p [] = refl
amount_at-insert c p (q ∷ qs) = ground (arith, amount_at-insert c p qs)

pub amount_at-sort : (c : ℕ) (ps : List Pool) → amount_at c (sort_by_amount ps) ≡ amount_at c ps
unfolding sort_by_amount
amount_at-sort c [] = refl
amount_at-sort c (p ∷ ps) =
    ground (arith, amount_at-insert c p (sort_by_amount ps), amount_at-sort c ps)

-- Each amount is at least the next one.
abbrev pub IsDescending : List Pool → Type 0
IsDescending [] = Unit
IsDescending (p ∷ []) = Unit
IsDescending (p ∷ q ∷ ps) = (q.amount ≤ p.amount) × IsDescending (q ∷ ps)

insert-IsDescending :
    (p : Pool) (ps : List Pool) → IsDescending ps → IsDescending (insert_by_amount p ps)
unfolding insert_by_amount
insert-IsDescending p [] h = tt
insert-IsDescending p (q ∷ []) h = ground arith
insert-IsDescending p (q ∷ r ∷ qs) h = ground (arith, insert-IsDescending p (r ∷ qs) h.1)

pub sort-IsDescending : (ps : List Pool) → IsDescending (sort_by_amount ps)
unfolding sort_by_amount
sort-IsDescending [] = tt
sort-IsDescending (p ∷ ps) = insert-IsDescending p (sort_by_amount ps) (sort-IsDescending ps)
