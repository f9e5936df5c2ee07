-- ===== src/Decommission/Failures.antt =====
-- Drains whose bridges are refused, services/treasury/src/decommission.rs.
use web_3_bank.Prelude.{
  ℕ, ◌+◌, ◌≡◌, refl, ◌∙◌, ap, true, Bool-cases, inl, inr, List, [], ◌∷◌, ◌==◌, Bytes, arith,
}
use web_3_bank.Decommission.Ops.{contains_holder}
use web_3_bank.Decommission.Drain.{
  HolderBalance, DrainPlan, drained, refused, Ports, State, after_bridge, drain_holder,
  drain_holders, drain_pool, drain_reserve, drain_liquidity, complete_alert, completed_now,
  drain_all, run_drain_plan,
}

-- No bridge succeeds.
abbrev pub AllRefused : Ports → Type 0
AllRefused ports =
    (t source target : ℕ) (holder : Bytes) (amount : ℕ)
    → (reason : Bytes) × (ports.bridge_holder t source target holder amount ≡ refused reason)

module _ (ports : Ports) (no : AllRefused ports) (plan : DrainPlan) where
  drain_holder-refused :
      (holder : HolderBalance) (s : State)
      → ((drain_holder ports plan holder s).0 ≡ 0)
        × ((drain_holder ports plan holder s).1.alerts ≡ s.alerts)
        × ((drain_holder ports plan holder s).1.home_updates ≡ s.home_updates)
  unfolding drain_holder after_bridge
  drain_holder-refused holder s =
      let (reason, e) =
        no (s.tick + 1) plan.source_chain plan.target_chain holder.address holder.amount in
      rw e (refl, refl, refl)

  drain_holders-refused :
      (completed : List Bytes) (holders : List HolderBalance) (s : State)
      → ((drain_holders ports plan completed holders s).0 ≡ 0)
        × ((drain_holders ports plan completed holders s).1.alerts ≡ s.alerts)
        × ((drain_holders ports plan completed holders s).1.home_updates ≡ s.home_updates)
  unfolding drain_holders
  drain_holders-refused completed [] s = (refl, refl, refl)
  drain_holders-refused completed (holder ∷ holders) s =
      elim (Bool-cases (contains_holder holder.address completed)) [
        | inl old ↦ rw old (drain_holders-refused completed holders s)
        | inr new ↦
            let (z, a, u) = drain_holder-refused holder s in
            let (z', a', u') =
              drain_holders-refused completed holders (drain_holder ports plan holder s).1 in
            rw new (omega arith, a' ∙ a, u' ∙ u)
      ]

  drain_pool-kept :
      (s : State)
      → ((drain_pool plan s).alerts ≡ s.alerts)
        × ((drain_pool plan s).home_updates ≡ s.home_updates)
  unfolding drain_pool
  drain_pool-kept s = elim (Bool-cases (plan.pool_amount == 0)) [
    | inl z ↦ rw z (refl, refl)
    | inr p ↦ rw p (refl, refl)
  ]

  drain_reserve-kept :
      (s : State)
      → ((drain_reserve plan s).alerts ≡ s.alerts)
        × ((drain_reserve plan s).home_updates ≡ s.home_updates)
  unfolding drain_reserve
  drain_reserve-kept s = elim (Bool-cases (plan.reserve_amount == 0)) [
    | inl z ↦ rw z (refl, refl)
    | inr p ↦ rw p (refl, refl)
  ]

  drain_all-refused :
      (s : State)
      → ((drain_all ports plan s).0 ≡ drained 0)
        × ((drain_all ports plan s).1.alerts ≡ complete_alert ∷ s.alerts)
        × ((drain_all ports plan s).1.home_updates ≡ s.home_updates)
  unfolding drain_all drain_liquidity
  drain_all-refused s =
      let completed = completed_now ports plan s in
      let later = record s { tick = s.tick + 1 } in
      let (z, a, u) = drain_holders-refused completed plan.holders later in
      let s' = (drain_holders ports plan completed plan.holders later).1 in
      let (a', u') = drain_pool-kept s' in
      let (a'', u'') = drain_reserve-kept (drain_pool plan s') in
      (ap drained z, ap (λ l. complete_alert ∷ l) (a'' ∙ (a' ∙ a)), u'' ∙ (u' ∙ u))

  -- A drain whose every bridge is refused is reported as complete all the same: if the target chain
  -- is active, the outcome is that of a complete drain with 0 holders, no holder's home chain is
  -- updated, and the operators are alerted that the drain is complete and the chain may be finalized.
  pub refused_drain_completes :
      (s : State)
      → ports.is_chain_active s.tick plan.target_chain ≡ true
      → let (outcome, s') = run_drain_plan ports plan s in
        (outcome ≡ drained 0)
        × (s'.alerts ≡ complete_alert ∷ s.alerts)
        × (s'.home_updates ≡ s.home_updates)
  unfolding run_drain_plan
  refused_drain_completes s live =
      let (o, a, u) = drain_all-refused (record s { tick = s.tick + 1 }) in rw live (o, a, u)
