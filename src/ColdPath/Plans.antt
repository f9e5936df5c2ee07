-- ===== src/ColdPath/Plans.antt =====
-- The plans of services/treasury/src/cold_path.rs and reserve_path.rs against the depths they were
-- made from.
use web_3_bank.Prelude.{
  ℕ, ◌+◌, ◌-◌, ◌*◌, ◌/◌, ◌%◌, ◌≤◌, ◌<◌, ◌≡◌, ◌≢◌, refl, min, max, true, false, Bool-cases, inl, inr,
  Option, none, some, List, [], ◌∷◌, arith, ltb, ◌==◌, if◌then◌else◌, length,
}
use web_3_bank.Rebalance.{Pool, Op, total}
use web_3_bank.Rebalance.Matching.{total_moved}
use web_3_bank.Rebalance.Bounds.{amount_at, moved_from, moved_into}
use web_3_bank.Rebalance.Plan.{compute_rebalance_ops-total_moved, compute_rebalance_ops_bounds}
use web_3_bank.ColdPath.Planner.{
  u256_mod, total_depth, total_from, target_depth, any_deficit, surpluses, deficits,
  match_to_target, plan_rebalance, plan_reserve,
}

-- `depths` is a map: the depth of a chain, and that no chain is listed twice.
abbrev pub depth_at : ℕ → List Pool → Option ℕ
depth_at c [] = none
depth_at c (p ∷ ps) = if p.chain == c then some p.amount else depth_at c ps

abbrev pub IsMap : List Pool → Type 0
IsMap [] = Unit
IsMap (p ∷ ps) = (depth_at p.chain ps ≡ none) × IsMap ps

module _ (t c : ℕ) where
  surplus_absent : (ps : List Pool) → depth_at c ps ≡ none → amount_at c (surpluses t ps) ≡ 0
  unfolding surpluses
  surplus_absent [] h = refl
  surplus_absent (p ∷ ps) h = ground (arith, surplus_absent ps)

  deficit_absent : (ps : List Pool) → depth_at c ps ≡ none → amount_at c (deficits t ps) ≡ 0
  unfolding deficits
  deficit_absent [] h = refl
  deficit_absent (p ∷ ps) h = ground (arith, deficit_absent ps)

  surplus_present :
      (ps : List Pool) (d : ℕ)
      → IsMap ps
      → depth_at c ps ≡ some d
      → amount_at c (surpluses t ps) ≡ d - t
  unfolding surpluses
  surplus_present [] d m h = cc
  surplus_present (p ∷ ps) d m h = elim (Bool-cases (p.chain == c)) [
    | inl own ↦
        let e : p.chain ≡ c = ground arith in ground (arith, surplus_absent ps (rw e at m.0))
    | inr other ↦ ground (arith, surplus_present ps d m.1)
  ]

  deficit_present :
      (ps : List Pool) (d : ℕ)
      → IsMap ps
      → depth_at c ps ≡ some d
      → amount_at c (deficits t ps) ≡ t - d
  unfolding deficits
  deficit_present [] d m h = cc
  deficit_present (p ∷ ps) d m h = elim (Bool-cases (p.chain == c)) [
    | inl own ↦
        let e : p.chain ≡ c = ground arith in ground (arith, deficit_absent ps (rw e at m.0))
    | inr other ↦ ground (arith, deficit_present ps d m.1)
  ]

-- The operations take no chain of depth `d` below the target, if it is above, and bring none above
-- the target, if it is below: a chain only moves towards the target.
abbrev pub Approaches : ℕ → List Pool → List Op → Type 0
Approaches t depths ops =
    (c d : ℕ)
    → depth_at c depths ≡ some d
    → (moved_from c ops + min d t ≤ d) × (d + moved_into c ops ≤ max d t)

match_to_target-Approaches :
    (t : ℕ) (cap : Option ℕ) (depths : List Pool) {ops : List Op}
    → IsMap depths
    → match_to_target t cap depths ≡ some ops
    → Approaches t depths ops
unfolding match_to_target
match_to_target-Approaches t cap depths m h c d at =
    let (from, into, _) =
      compute_rebalance_ops_bounds (surpluses t depths) (deficits t depths) cap h in
    (
      omega (arith, from c, surplus_present t c depths d m at),
      omega (arith, into c, deficit_present t c depths d m at),
    )

nothing-Approaches :
    (t : ℕ) (depths : List Pool) {ops : List Op} → some [] ≡ some ops → Approaches t depths ops
nothing-Approaches t depths {ops} h =
    let e : ops ≡ [] = cc in rw e (λ c d at. (omega arith, omega arith))

-- In every plan that the cold path makes from the depths of different chains, a chain only moves
-- towards the target of the cycle: what leaves it takes it no lower than the smaller of its depth and
-- the target, and what comes to it brings it no higher than the larger of the two.
pub plan_rebalance-Approaches :
    (min_bps target_bps : ℕ) (cap : Option ℕ) (depths : List Pool) {ops : List Op}
    → IsMap depths
    → plan_rebalance min_bps target_bps cap depths ≡ some ops
    → Approaches (target_depth target_bps (total_depth depths) (length depths)) depths ops
unfolding plan_rebalance
plan_rebalance-Approaches min_bps target_bps cap depths m h =
    let t = target_depth target_bps (total_depth depths) (length depths) in
    elim (Bool-cases (ltb (length depths) 2)) [
      | inl few ↦ nothing-Approaches t depths (rw few at h)
      | inr many ↦ elim (Bool-cases (total_depth depths == 0)) [
        | inl empty ↦ nothing-Approaches t depths (rw (many, empty) at h)
        | inr full ↦ elim (Bool-cases (any_deficit min_bps t depths)) [
          | inl short ↦ match_to_target-Approaches t cap depths m (rw (many, full, short) at h)
          | inr even ↦ nothing-Approaches t depths (rw (many, full, even) at h)
        ]
      ]
    ]

-- In every plan that the reserve planner makes from the depths of different chains, a chain only
-- moves towards the mean depth: what leaves it takes it no lower than the smaller of its depth and
-- the mean, and what comes to it brings it no higher than the larger of the two.
plan_reserve-Approaches :
    (min_bps : ℕ) (cap : Option ℕ) (depths : List Pool) {ops : List Op}
    → IsMap depths
    → plan_reserve min_bps cap depths ≡ some ops
    → Approaches (total_depth depths / length depths) depths ops
unfolding plan_reserve
plan_reserve-Approaches min_bps cap depths m h =
    let t = total_depth depths / length depths in
    elim (Bool-cases (ltb (length depths) 2)) [
      | inl few ↦ nothing-Approaches t depths (rw few at h)
      | inr many ↦ elim (Bool-cases (total_depth depths == 0)) [
        | inl empty ↦ nothing-Approaches t depths (rw (many, empty) at h)
        | inr full ↦ elim (Bool-cases (t == 0)) [
          | inl low ↦ nothing-Approaches t depths (rw (many, full, low) at h)
          | inr high ↦ elim (Bool-cases (any_deficit min_bps t depths)) [
            | inl short ↦
                match_to_target-Approaches t cap depths m (rw (many, full, high, short) at h)
            | inr even ↦ nothing-Approaches t depths (rw (many, full, high, even) at h)
          ]
        ]
      ]
    ]

total_from-eq :
    (acc : ℕ) (ps : List Pool) → acc + total ps < u256_mod → total_from acc ps ≡ acc + total ps
unfolding total_from
total_from-eq acc [] h = omega arith
total_from-eq acc (p ∷ ps) h =
    let e : (acc + p.amount) % u256_mod ≡ acc + p.amount = omega arith in
    rw e (omega (arith, total_from-eq (acc + p.amount) ps))

total_depth-eq : (ps : List Pool) → total ps < u256_mod → total_depth ps ≡ total ps
unfolding total_depth
total_depth-eq ps h = omega (arith, total_from-eq 0 ps (omega arith))

balance_of_parts :
    (t : ℕ) (ps : List Pool)
    → total (surpluses t ps) + length ps * t ≡ total (deficits t ps) + total ps
unfolding surpluses deficits
balance_of_parts t [] = omega arith
balance_of_parts t (p ∷ ps) = ground (arith, balance_of_parts t ps)

-- With an equal distribution the surpluses cover the deficits.
deficits-le-surpluses :
    (ps : List Pool)
    → total ps < u256_mod
    → 0 < length ps
    → total (deficits (total_depth ps / length ps) ps)
      ≤ total (surpluses (total_depth ps / length ps) ps)
deficits-le-surpluses ps h p =
    let t = total_depth ps / length ps in grind (arith, balance_of_parts t ps, total_depth-eq ps h)

-- A plan of the cold path with an equal distribution makes up every deficit: where a cap, if there
-- is one, is not 0, the depths add up to less than 2^256, and some chain is below the minimum, the
-- planner ends with operations that move in all what the chains below the mean lack.
pub plan_fills_deficits :
    (min_bps : ℕ) (cap : Option ℕ) (depths : List Pool)
    → cap ≢ some 0
    → 2 ≤ length depths
    → 0 < total depths
    → total depths < u256_mod
    → any_deficit min_bps (total_depth depths / length depths) depths ≡ true
    → (ops : List Op) × (plan_rebalance min_bps 0 cap depths ≡ some ops)
      × (total_moved ops ≡ total (deficits (total_depth depths / length depths) depths))
unfolding plan_rebalance match_to_target target_depth
plan_fills_deficits min_bps most depths c many full small short =
    let t = total_depth depths / length depths in
    let (ops, e, moved) =
      compute_rebalance_ops-total_moved (surpluses t depths) (deficits t depths) most c in
    let two : ltb (length depths) 2 ≡ false = ground arith in
    let nonzero : (total_depth depths == 0) ≡ false = ground (arith, total_depth-eq depths small) in
    (
      ops,
      rw (two, nonzero, short) e,
      omega (arith, moved, deficits-le-surpluses depths small (omega arith)),
    )
