-- ===== src/HotPath/Decommissioned.antt =====
-- Decommissioned chains and the loops of services/treasury/src/hot_path.rs.
use web_3_bank.Prelude.{
  ℕ, ◌≡◌, refl, Bool, true, false, Option-cases, inl, inr, Option, none, some, Bytes,
}
use web_3_bank.Prelude.Dict.{get}
use web_3_bank.Eth.Submit.{Result, ok, err, submit_with_retry, Logs}
use web_3_bank.Domain.Relay.{
  RelayDecision, approved, inactive_chain, insufficient_depth, evaluate_relay_eligibility, pending,
}
use web_3_bank.HotPath.RelayLogs.{HotPathEvent, insert_relay_log}
use web_3_bank.HotPath.Relay.{
  Env, State, later, write, is_chain_active, relay_already_recorded, release_call, settle, release,
  act_on, with_depth, on_chain, resolve, relay_event,
}

module _ (env : Env) (event : HotPathEvent) where
  settle-decommissioned :
      (r : Result (Bytes × Logs)) (s : State)
      → (settle env event r s).decommissioned_chains ≡ s.decommissioned_chains
  unfolding settle
  settle-decommissioned (ok (tx, logs)) s = refl
  settle-decommissioned (err e) s = refl

  act_on-decommissioned :
      (rpc bank : Bytes) (d : RelayDecision) (s : State)
      → (act_on env event rpc bank d s).decommissioned_chains ≡ s.decommissioned_chains
  unfolding act_on release
  act_on-decommissioned rpc bank approved s =
      let s' = write env (insert_relay_log event none pending) s in
      let (r, net) =
        submit_with_retry env.node (release_call env rpc bank event) env.relayer_key
          env.relayer_address s'.net in
      settle-decommissioned r (record s' { net = net })
  act_on-decommissioned rpc bank inactive_chain s = refl
  act_on-decommissioned rpc bank insufficient_depth s = refl

  with_depth-decommissioned :
      (rpc bank : Bytes) (d : Option ℕ) (s : State)
      → (with_depth env event rpc bank d s).decommissioned_chains ≡ s.decommissioned_chains
  unfolding with_depth
  with_depth-decommissioned rpc bank none s = refl
  with_depth-decommissioned rpc bank (some depth) s =
      act_on-decommissioned rpc bank (evaluate_relay_eligibility true depth event.amount) s

  on_chain-decommissioned :
      (rpc bank : Bytes) (active : Bool) (s : State)
      → (on_chain env event rpc bank active s).decommissioned_chains ≡ s.decommissioned_chains
  unfolding on_chain
  on_chain-decommissioned rpc bank true s =
      with_depth-decommissioned rpc bank
        (env.node.fetch_u256_view s.net.tick rpc bank env.pool_depth_selector) (later s)
  on_chain-decommissioned rpc bank false s =
      act_on-decommissioned rpc bank (evaluate_relay_eligibility false 0 event.amount) s

  resolve-decommissioned :
      (s : State) → (resolve env event s).decommissioned_chains ≡ s.decommissioned_chains
  unfolding resolve
  resolve-decommissioned s = elim (Option-cases (get event.dest_chain_id env.rpc_urls)) [
    | inl no_rpc ↦ rw (no_rpc, resolve) refl
    | inr (rpc, has_rpc) ↦ elim (Option-cases (get event.dest_chain_id env.contract_addresses)) [
      | inl no_bank ↦ rw (has_rpc, no_bank, resolve) refl
      | inr (bank, has_bank) ↦
          rw (has_rpc, has_bank, resolve)
            (on_chain-decommissioned rpc bank (is_chain_active event.dest_chain_id s) s)
    ]
  ]

  pub relay_event-decommissioned :
      (s : State) → (relay_event env event s).decommissioned_chains ≡ s.decommissioned_chains
  unfolding relay_event
  relay_event-decommissioned s = guarded (relay_already_recorded env event.source_event_hash s)
    where
      guarded :
          (recorded : Bool)
          → (elim recorded as (λ _. State) [
            | true ↦ later s
            | false ↦ resolve env event (later s)
          ]).decommissioned_chains
            ≡ s.decommissioned_chains
      guarded true = refl
      guarded false = resolve-decommissioned (later s)
