-- ===== src/Rebalance/Bounds.antt =====
-- What each chain gives and gets in a run of the matching loop, and what each operation moves.
use web_3_bank.Prelude.{
  ℕ, zero, suc, ◌+◌, ◌-◌, ◌≤◌, ◌<◌, min, ◌≡◌, Option, none, some, List, [], ◌∷◌, arith, ◌==◌,
  if◌then◌else◌, Bool-cases, inl, inr, All,
}
use web_3_bank.Rebalance.{Pool, Op, capped, advance, push, match_loop}
use web_3_bank.Rebalance.Matching.{source_empty, dest_empty, move, round, op_of, after, capped-le}

-- The amounts listed under a chain, summed.
abbrev pub amount_at : ℕ → List Pool → ℕ
amount_at c [] = 0
amount_at c (p ∷ ps) = (if p.chain == c then p.amount else 0) + amount_at c ps

-- What the operations take out of a chain, and what they bring in.
abbrev pub moved_from : ℕ → List Op → ℕ
moved_from c [] = 0
moved_from c (o ∷ os) = (if o.source == c then o.amount else 0) + moved_from c os

abbrev pub moved_into : ℕ → List Op → ℕ
moved_into c [] = 0
moved_into c (o ∷ os) = (if o.dest == c then o.amount else 0) + moved_into c os

amount_at-advance :
    (c : ℕ) (p : Pool) (ps : List Pool) → amount_at c (advance p ps) ≡ amount_at c (p ∷ ps)
unfolding advance
amount_at-advance c p ps = ground arith

moved_from-push : (c : ℕ) (o : Op) (os : List Op) → moved_from c (push o os) ≡ moved_from c (o ∷ os)
unfolding push
moved_from-push c o os = ground arith

moved_into-push : (c : ℕ) (o : Op) (os : List Op) → moved_into c (push o os) ≡ moved_into c (o ∷ os)
unfolding push
moved_into-push c o os = ground arith

-- No chain gives more than it is listed with as a surplus.
pub match_loop-moved_from :
    (c : ℕ) (f : ℕ) (cap : Option ℕ) (sur def : List Pool) {ops : List Op}
    → match_loop f cap sur def ≡ some ops
    → moved_from c ops ≤ amount_at c sur
unfolding match_loop
match_loop-moved_from c zero cap sur def h = cc
match_loop-moved_from c (suc f) cap [] def h = ground arith
match_loop-moved_from c (suc f) cap (s ∷ ss) [] h = ground arith
match_loop-moved_from c (suc f) cap (s ∷ ss) (d ∷ ds) h = elim (round f cap s ss d ds h) [
  | source_empty z e ↦ ground (arith, match_loop-moved_from c f cap ss (d ∷ ds) e)
  | dest_empty z e ↦ ground (arith, match_loop-moved_from c f cap (s ∷ ss) ds e)
  | move p q rest e g ↦
      let m = (op_of cap s d).amount in
      rw g (
        ground (
          arith,
          moved_from-push c (op_of cap s d) rest,
          match_loop-moved_from c f cap (after s m ss) (after d m ds) e,
          amount_at-advance c (record s { amount = s.amount - m }) ss,
          capped-le cap (min s.amount d.amount),
        ))
]

-- No chain gets more than it is listed with as a deficit.
pub match_loop-moved_into :
    (c : ℕ) (f : ℕ) (cap : Option ℕ) (sur def : List Pool) {ops : List Op}
    → match_loop f cap sur def ≡ some ops
    → moved_into c ops ≤ amount_at c def
unfolding match_loop
match_loop-moved_into c zero cap sur def h = cc
match_loop-moved_into c (suc f) cap [] def h = ground arith
match_loop-moved_into c (suc f) cap (s ∷ ss) [] h = ground arith
match_loop-moved_into c (suc f) cap (s ∷ ss) (d ∷ ds) h = elim (round f cap s ss d ds h) [
  | source_empty z e ↦ ground (arith, match_loop-moved_into c f cap ss (d ∷ ds) e)
  | dest_empty z e ↦ ground (arith, match_loop-moved_into c f cap (s ∷ ss) ds e)
  | move p q rest e g ↦
      let m = (op_of cap s d).amount in
      rw g (
        ground (
          arith,
          moved_into-push c (op_of cap s d) rest,
          match_loop-moved_into c f cap (after s m ss) (after d m ds) e,
          amount_at-advance c (record d { amount = d.amount - m }) ds,
          capped-le cap (min s.amount d.amount),
        ))
]

-- An operation moves something, and no more than the cap.
abbrev pub Within : Option ℕ → ℕ → Type 0
Within none a = Unit
Within (some cap) a = a ≤ cap

abbrev pub Fits : Option ℕ → Op → Type 0
Fits cap o = (0 < o.amount) × Within cap o.amount

Within-capped : (cap : Option ℕ) (a : ℕ) → Within cap (capped cap a)
unfolding capped
Within-capped none a = tt
Within-capped (some c) a = omega arith

push-Fits :
    (cap : Option ℕ) (o : Op) (os : List Op)
    → Within cap o.amount
    → All (Fits cap) os
    → All (Fits cap) (push o os)
unfolding push
push-Fits cap o os w h = elim (Bool-cases (o.amount == 0)) [
  | inl z ↦ rw z h
  | inr p ↦ rw p ((ground arith, w), h)
]

Fits-nil : (cap : Option ℕ) {ops : List Op} → some [] ≡ some ops → All (Fits cap) ops
Fits-nil cap {ops} h = let e : ops ≡ [] = cc in rw e tt

pub match_loop-Fits :
    (f : ℕ) (cap : Option ℕ) (sur def : List Pool) {ops : List Op}
    → match_loop f cap sur def ≡ some ops
    → All (Fits cap) ops
unfolding match_loop
match_loop-Fits zero cap sur def h = cc
match_loop-Fits (suc f) cap [] def h = Fits-nil cap h
match_loop-Fits (suc f) cap (s ∷ ss) [] h = Fits-nil cap h
match_loop-Fits (suc f) cap (s ∷ ss) (d ∷ ds) h = elim (round f cap s ss d ds h) [
  | source_empty z e ↦ match_loop-Fits f cap ss (d ∷ ds) e
  | dest_empty z e ↦ match_loop-Fits f cap (s ∷ ss) ds e
  | move p q rest e g ↦
      let m = (op_of cap s d).amount in
      rw g (
        push-Fits cap (op_of cap s d) rest (Within-capped cap (min s.amount d.amount))
          (match_loop-Fits f cap (after s m ss) (after d m ds) e))
]
