-- ===== src/Rebalance/Matching.antt =====
-- The total that the matching loop of `compute_rebalance_ops` moves.
use web_3_bank.Prelude.{
  ℕ, zero, suc, ◌+◌, ◌-◌, ◌≤◌, ◌<◌, min, ◌≡◌, ◌≢◌, refl, Option, none, some, List, [], ◌∷◌, arith,
  ◌==◌, length, Bool-cases, inl, inr, ==_iff,
}
use web_3_bank.Rebalance.{Pool, Op, capped, advance, push, emit, match_loop, total}

abbrev pub total_moved : List Op → ℕ
total_moved [] = 0
total_moved (o ∷ os) = o.amount + total_moved os

pub total-advance : (p : Pool) (ps : List Pool) → total (advance p ps) ≡ p.amount + total ps
unfolding advance
total-advance p ps = ground arith

pub length-advance : (p : Pool) (ps : List Pool) → length (advance p ps) ≤ suc (length ps)
unfolding advance
length-advance p ps = ground arith

pub capped-le : (cap : Option ℕ) (a : ℕ) → capped cap a ≤ a
unfolding capped
capped-le none a = omega arith
capped-le (some c) a = omega arith

-- Only a cap of 0 stops the loop from moving.
pub capped-pos : (cap : Option ℕ) (a : ℕ) → cap ≢ some 0 → 0 < a → 0 < capped cap a
unfolding capped
capped-pos none a h p = p
capped-pos (some zero) a h p = absurd (h refl)
capped-pos (some (suc c)) a h p = omega arith

-- The operation that a round emits for the heads `s` and `d`.
abbrev pub op_of : Option ℕ → Pool → Pool → Op
op_of cap s d = record {
  source = s.chain;
  dest = d.chain;
  amount = capped cap (min s.amount d.amount);
}

-- The head and the rest of a vector, once `a` is taken from the head.
abbrev pub after : Pool → ℕ → List Pool → List Pool
after p a ps = advance (record p { amount = p.amount - a }) ps

-- How a round that ends in `ops` went.
pub data Round (f : ℕ) (cap : Option ℕ) (s : Pool) (ss : List Pool) (d : Pool) (ds : List Pool)
    (ops : List Op) : Type 0 where
  source_empty : s.amount ≡ 0 → match_loop f cap ss (d ∷ ds) ≡ some ops → Round f cap s ss d ds ops
  dest_empty : d.amount ≡ 0 → match_loop f cap (s ∷ ss) ds ≡ some ops → Round f cap s ss d ds ops
  move :
      0 < s.amount
      → 0 < d.amount
      → (rest : List Op)
      → match_loop f cap (after s (op_of cap s d).amount ss) (after d (op_of cap s d).amount ds)
        ≡ some rest
      → ops ≡ push (op_of cap s d) rest
      → Round f cap s ss d ds ops

emit-some :
    (op : Op) (o : Option (List Op)) {ops : List Op}
    → emit op o ≡ some ops
    → (rest : List Op) × (o ≡ some rest) × (ops ≡ push op rest)
emit-some op none h = cc
emit-some op (some rest) h = (rest, refl, ground arith)

pub round :
    (f : ℕ) (cap : Option ℕ) (s : Pool) (ss : List Pool) (d : Pool) (ds : List Pool) {ops : List Op}
    → match_loop (suc f) cap (s ∷ ss) (d ∷ ds) ≡ some ops
    → Round f cap s ss d ds ops
unfolding match_loop
round f cap s ss d ds h = elim (Bool-cases (s.amount == 0)) [
  | inl z ↦ source_empty ((==_iff _ _).0 z) (ground arith)
  | inr p ↦ elim (Bool-cases (d.amount == 0)) [
    | inl z ↦ dest_empty ((==_iff _ _).0 z) (ground arith)
    | inr q ↦
        let (rest, e, g) =
          emit-some (op_of cap s d)
            (match_loop f cap (after s (op_of cap s d).amount ss)
              (after d (op_of cap s d).amount ds))
            (rw (p, q) at h) in
        move (ground arith) (ground arith) rest e g
  ]
]

total_moved-push :
    (op : Op) (ops : List Op) → total_moved (push op ops) ≡ op.amount + total_moved ops
unfolding push
total_moved-push op ops = ground arith

-- What a run moves in all is the smaller of the two totals.
pub match_loop-total :
    (f : ℕ) (cap : Option ℕ) (sur def : List Pool) {ops : List Op}
    → match_loop f cap sur def ≡ some ops
    → total_moved ops ≡ min (total sur) (total def)
unfolding match_loop
match_loop-total zero cap sur def h = cc
match_loop-total (suc f) cap [] def h = ground arith
match_loop-total (suc f) cap (s ∷ ss) [] h = ground arith
match_loop-total (suc f) cap (s ∷ ss) (d ∷ ds) h = elim (round f cap s ss d ds h) [
  | source_empty z e ↦ omega (arith, match_loop-total f cap ss (d ∷ ds) e)
  | dest_empty z e ↦ omega (arith, match_loop-total f cap (s ∷ ss) ds e)
  | move p q rest e g ↦
      let m = (op_of cap s d).amount in
      rw g (
        omega (
          arith,
          total_moved-push (op_of cap s d) rest,
          match_loop-total f cap (after s m ss) (after d m ds) e,
          total-advance (record s { amount = s.amount - m }) ss,
          total-advance (record d { amount = d.amount - m }) ds,
          capped-le cap (min s.amount d.amount),
        ))
]
