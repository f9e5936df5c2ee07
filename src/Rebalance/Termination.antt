-- ===== src/Rebalance/Termination.antt =====
-- The rounds of the matching loop of `compute_rebalance_ops`.
use web_3_bank.Prelude.{
  ℕ, zero, suc, ◌+◌, ◌-◌, ◌<◌, min, ◌≡◌, ◌≢◌, refl, Option, none, some, List, [], ◌∷◌, arith, ◌==◌,
  length, Bool-cases, inl, inr,
}
use web_3_bank.Rebalance.{Pool, Op, capped, advance, push, match_loop, total}
use web_3_bank.Rebalance.Matching.{
  op_of, after, total-advance, length-advance, capped-le, capped-pos,
}

pub match_loop-ends :
    (f : ℕ) (cap : Option ℕ) (sur def : List Pool)
    → cap ≢ some 0
    → length sur + length def + total sur < f
    → (ops : List Op) × (match_loop f cap sur def ≡ some ops)
unfolding match_loop
match_loop-ends zero cap sur def c h = absurd (omega arith)
match_loop-ends (suc f) cap [] def c h = ([], refl)
match_loop-ends (suc f) cap (s ∷ ss) [] c h = ([], refl)
match_loop-ends (suc f) cap (s ∷ ss) (d ∷ ds) c h = elim (Bool-cases (s.amount == 0)) [
  | inl z ↦ rw z (match_loop-ends f cap ss (d ∷ ds) c (omega arith))
  | inr p ↦ elim (Bool-cases (d.amount == 0)) [
    | inl z ↦ rw (p, z) (match_loop-ends f cap (s ∷ ss) ds c (omega arith))
    | inr q ↦
        let m = (op_of cap s d).amount in
        let (rest, e) = match_loop-ends f cap (after s m ss) (after d m ds) c (
          ground (
            arith,
            total-advance (record s { amount = s.amount - m }) ss,
            length-advance (record s { amount = s.amount - m }) ss,
            length-advance (record d { amount = d.amount - m }) ds,
            capped-le cap (min s.amount d.amount),
            capped-pos cap (min s.amount d.amount) c,
          )) in
        (push (op_of cap s d) rest, rw (p, q, e))
  ]
]

-- With a cap of 0 a round between a surplus and a deficit leaves both as they are.
pub match_loop_stuck :
    (f : ℕ) (sur def : List Pool)
    → 0 < total sur
    → 0 < total def
    → match_loop f (some 0) sur def ≡ none
unfolding match_loop capped advance
match_loop_stuck zero sur def p q = refl
match_loop_stuck (suc f) [] def p q = absurd (omega arith)
match_loop_stuck (suc f) (s ∷ ss) [] p q = absurd (omega arith)
match_loop_stuck (suc f) (s ∷ ss) (d ∷ ds) p q = ground (
  arith,
  match_loop_stuck f ss (d ∷ ds),
  match_loop_stuck f (s ∷ ss) ds,
  match_loop_stuck f (s ∷ ss) (d ∷ ds),
)
