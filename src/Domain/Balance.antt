-- ===== src/Domain/Balance.antt =====
-- services/treasury/src/domain/balance.rs: the user's balance over all chains, in 256-bit words.
use web_3_bank.Prelude.{
  ℕ, ◌+◌, ◌-◌, ◌^◌, ◌≤◌, ◌≡◌, Bool, true, false, ◌||◌, List, [], ◌∷◌, min, arith, if◌then◌else◌,
}

pub record ChainBalanceContribution : Type 0 where
  pub amount : ℕ
  pub used_fallback : Bool

-- The largest value of a `U256`.
abbrev pub u256_max : ℕ
u256_max = 2 ^ 256 - 1

saturating_add : ℕ → ℕ → ℕ
saturating_add a b = min (a + b) u256_max

-- The loop over the contributions, with the loop's two variables.
aggregate_from : List ChainBalanceContribution → ℕ → Bool → ℕ × Bool
unfolding saturating_add
aggregate_from [] total degraded = (total, degraded)
aggregate_from (c ∷ cs) total degraded =
    aggregate_from cs (saturating_add total c.amount) (if c.used_fallback then true else degraded)

unfoldable pub aggregate_balances : List ChainBalanceContribution → ℕ × Bool
unfolding aggregate_from
aggregate_balances cs = aggregate_from cs 0 false

abbrev pub sum : List ChainBalanceContribution → ℕ
sum [] = 0
sum (c ∷ cs) = c.amount + sum cs

abbrev pub any_fallback : List ChainBalanceContribution → Bool
any_fallback [] = false
any_fallback (c ∷ cs) = c.used_fallback || any_fallback cs

aggregate_from_lem :
    (cs : List ChainBalanceContribution) (total : ℕ) (degraded : Bool)
    → total ≤ u256_max
    → aggregate_from cs total degraded
      ≡ (min (total + sum cs) u256_max, degraded || any_fallback cs)
unfolding aggregate_from
aggregate_from_lem [] total degraded h = ground arith
aggregate_from_lem (c ∷ cs) total degraded h = ground (
  arith,
  aggregate_from_lem cs (min (total + c.amount) u256_max)
      (if c.used_fallback then true else degraded),
)

-- The total is the sum of the contributions, or the largest word where the sum is past it, and the
-- answer is degraded exactly when some chain used the indexed estimate.
aggregate_balances_lem :
    (cs : List ChainBalanceContribution)
    → aggregate_balances cs ≡ (min (sum cs) u256_max, any_fallback cs)
unfolding aggregate_balances
aggregate_balances_lem cs = ground (arith, aggregate_from_lem cs 0 false)
