-- ===== src/ColdPath/Chunks.antt =====
-- `split_amount_by_cap` of services/treasury/src/cold_path.rs.
use web_3_bank.Prelude.{
  ℕ, zero, suc, ◌+◌, ◌-◌, ◌*◌, ◌≤◌, ◌<◌, ◌≡◌, min, false, ◌||◌, Bool-cases, inl, inr, Option, none,
  some, List, [], ◌∷◌, arith, ltb, ◌==◌, if◌then◌else◌, All, length,
}

abbrev push : ℕ → Option (List ℕ) → Option (List ℕ)
push a none = none
push a (some rest) = some (a ∷ rest)

-- `while remaining > U256::ZERO`; `none`: the fuel ran out.
split_loop : ℕ → ℕ → ℕ → Option (List ℕ)
split_loop zero remaining cap = none
split_loop (suc f) remaining cap =
    let chunk = min remaining cap in
    let rest = push chunk (split_loop f (remaining - chunk) cap) in
    if ltb 0 remaining then rest else some []

-- A chunk is at least 1, so one round for each unit and one more are enough.
unfoldable pub split_amount_by_cap : ℕ → ℕ → Option (List ℕ)
unfolding split_loop
split_amount_by_cap amount cap =
    if (amount == 0) || (cap == 0) then some [] else split_loop (suc amount) amount cap

abbrev pub sum : List ℕ → ℕ
sum [] = 0
sum (a ∷ rest) = a + sum rest

-- The chunks add up to the amount, none is 0 or above the cap, and no two of them fit into one.
pub record IsSplit (amount cap : ℕ) (chunks : List ℕ) : Type 0 where
  pub whole : sum chunks ≡ amount
  pub fit : All (λ a. (0 < a) × (a ≤ cap)) chunks
  pub few : length chunks * cap < amount + cap

fit-length-le : (cap : ℕ) (xs : List ℕ) → All (λ a. (0 < a) × (a ≤ cap)) xs → length xs ≤ sum xs
fit-length-le cap [] h = omega arith
fit-length-le cap (a ∷ rest) h = omega (arith, fit-length-le cap rest h.1)

IsSplit-cons :
    (remaining cap : ℕ) (rest : List ℕ)
    → 0 < cap
    → 0 < remaining
    → IsSplit (remaining - min remaining cap) cap rest
    → IsSplit remaining cap (min remaining cap ∷ rest)
IsSplit-cons remaining cap rest p q s = record {
  whole = omega (arith, s.whole);
  fit = ((omega arith, omega arith), s.fit);
  few = grind (arith, s.whole, s.few, fit-length-le cap rest s.fit);
}

split_loop_total :
    (f remaining cap : ℕ)
    → 0 < cap
    → remaining < f
    → (chunks : List ℕ) × (split_loop f remaining cap ≡ some chunks) × IsSplit remaining cap chunks
unfolding split_loop
split_loop_total zero remaining cap p h = absurd (omega arith)
split_loop_total (suc f) remaining cap p h = elim (Bool-cases (ltb 0 remaining)) [
  | inl more ↦
      let chunk = min remaining cap in
      let (rest, e, s) = split_loop_total f (remaining - chunk) cap p (ground arith) in
      (chunk ∷ rest, rw (more, e), IsSplit-cons remaining cap rest p (ground arith) s)
  | inr done ↦ ([], rw done, ground arith)
]

-- A positive cap splits every amount: the loop ends, the chunks add up to the amount, each is more
-- than 0 and at most the cap, and there are no more of them than needed.
pub split_amount_by_cap-IsSplit :
    (amount cap : ℕ)
    → 0 < cap
    → (chunks : List ℕ) × (split_amount_by_cap amount cap ≡ some chunks) × IsSplit amount cap chunks
unfolding split_amount_by_cap
split_amount_by_cap-IsSplit amount cap p = elim (Bool-cases (amount == 0)) [
  | inl z ↦ ([], rw z, ground arith)
  | inr some_left ↦
      let (chunks, e, s) = split_loop_total (suc amount) amount cap p (omega arith) in
      let positive : (cap == 0) ≡ false = ground arith in (chunks, rw (some_left, positive, e), s)
]
