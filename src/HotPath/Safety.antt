-- ===== src/HotPath/Safety.antt =====
-- The transactions of `relay_event`, services/treasury/src/hot_path.rs.
use web_3_bank.Prelude.{
  ℕ, ◌+◌, ◌≤◌, ◌≡◌, refl, Bool, true, false, Bool-cases, Option-cases, inl, inr, Option, none, some,
  leb, leb→le, Bytes,
}
use web_3_bank.Prelude.Dict.{get}
use web_3_bank.Eth.Submit.{Result, ok, err, submit_with_retry, Logs, max_retries}
use web_3_bank.Eth.Submit.Sends.{Sends, submit_with_retry-Sends}
use web_3_bank.Domain.Relay.{evaluate_relay_eligibility, pending}
use web_3_bank.HotPath.RelayLogs.{HotPathEvent, insert_relay_log}
use web_3_bank.HotPath.Relay.{
  Env, State, later, write, is_chain_active, relay_already_recorded, release_call, settle, release,
  act_on, with_depth, on_chain, resolve, relay_event,
}

-- How the handling of an event may end: nothing was sent; or the event had not been recorded, its
-- destination was active and its pool covered the amount when it was read, and what was sent is at
-- most three times the release of this event by the destination's bank contract.
pub data Outcome (env : Env) (event : HotPathEvent) (s s' : State) : Type 0 where
  quiet : s'.net.sent ≡ s.net.sent → Outcome env event s s'
  released :
      (rpc_url bank_addr : Bytes) (tick depth : ℕ)
      → relay_already_recorded env event.source_event_hash s ≡ false
      → is_chain_active event.dest_chain_id s ≡ true
      → get event.dest_chain_id env.rpc_urls ≡ some rpc_url
      → get event.dest_chain_id env.contract_addresses ≡ some bank_addr
      → env.node.fetch_u256_view tick rpc_url bank_addr env.pool_depth_selector ≡ some depth
      → event.amount ≤ depth
      → Sends (release_call env rpc_url bank_addr event) max_retries s.net s'.net
      → Outcome env event s s'

module _ (env : Env) (event : HotPathEvent) where
  settle-sent :
      (r : Result (Bytes × Logs)) (s : State) → (settle env event r s).net.sent ≡ s.net.sent
  unfolding settle
  settle-sent (ok (tx, logs)) s = refl
  settle-sent (err e) s = refl

  release-Sends :
      (rpc bank : Bytes) (s : State)
      → Sends (release_call env rpc bank event) max_retries s.net (release env event rpc bank s).net
  unfolding release
  release-Sends rpc bank s =
      let c = release_call env rpc bank event in
      let s' = write env (insert_relay_log event none pending) s in
      let t = submit_with_retry-Sends env.node c env.relayer_key env.relayer_address s'.net in
      let (r, net) = submit_with_retry env.node c env.relayer_key env.relayer_address s'.net in
      record {
        new = t.new;
        extended = rw (settle-sent r (record s' { net = net })) t.extended;
        few = t.few;
        all_for = t.all_for;
      }

  module _ (s : State) (fresh : relay_already_recorded env event.source_event_hash s ≡ false)
      (rpc bank : Bytes) (has_rpc : get event.dest_chain_id env.rpc_urls ≡ some rpc)
      (has_bank : get event.dest_chain_id env.contract_addresses ≡ some bank) where
    with_depth-Outcome :
        (d : Option ℕ) (tick : ℕ)
        → is_chain_active event.dest_chain_id s ≡ true
        → env.node.fetch_u256_view tick rpc bank env.pool_depth_selector ≡ d
        → Outcome env event s (with_depth env event rpc bank d (later (later s)))
    unfolding with_depth act_on evaluate_relay_eligibility
    with_depth-Outcome none tick live read = quiet refl
    with_depth-Outcome (some depth) tick live read = elim (Bool-cases (leb event.amount depth)) [
      | inl covered ↦
          let t = release-Sends rpc bank (later (later s)) in
          rw covered (
            released rpc bank tick depth fresh live has_rpc has_bank read
              (leb→le event.amount depth covered)
              (record { new = t.new; extended = t.extended; few = t.few; all_for = t.all_for }))
      | inr short ↦ rw short (quiet refl)
    ]

    on_chain-Outcome :
        (active : Bool)
        → is_chain_active event.dest_chain_id s ≡ active
        → Outcome env event s (on_chain env event rpc bank active (later s))
    unfolding on_chain act_on evaluate_relay_eligibility
    on_chain-Outcome true live =
        with_depth-Outcome
          (env.node.fetch_u256_view (s.net.tick + 1) rpc bank env.pool_depth_selector)
          (s.net.tick + 1) live refl
    on_chain-Outcome false live = quiet refl

  resolve-Outcome :
      (s : State)
      → relay_already_recorded env event.source_event_hash s ≡ false
      → Outcome env event s (resolve env event (later s))
  unfolding resolve
  resolve-Outcome s fresh = elim (Option-cases (get event.dest_chain_id env.rpc_urls)) [
    | inl no_rpc ↦ rw (no_rpc, resolve) (quiet refl)
    | inr (rpc, has_rpc) ↦ elim (Option-cases (get event.dest_chain_id env.contract_addresses)) [
      | inl no_bank ↦ rw (has_rpc, no_bank, resolve) (quiet refl)
      | inr (bank, has_bank) ↦
          rw (has_rpc, has_bank, resolve)
            (on_chain-Outcome s fresh rpc bank has_rpc has_bank
              (is_chain_active event.dest_chain_id s) refl)
    ]
  ]

  guarded-Outcome :
      (s : State) (recorded : Bool)
      → relay_already_recorded env event.source_event_hash s ≡ recorded
      → Outcome env event s
          (elim recorded as (λ _. State) [ true ↦ later s | false ↦ resolve env event (later s) ])
  guarded-Outcome s true seen = quiet refl
  guarded-Outcome s false fresh = resolve-Outcome s fresh

  -- Whatever the network and the database answer, handling an event either sends nothing, or the
  -- event was not found on record, its destination was active, the destination's node gave a pool
  -- depth that covers the amount, and what was sent is at most three transactions, each the release
  -- of this event by the bank contract of its destination.
  pub relay_event-Outcome : (s : State) → Outcome env event s (relay_event env event s)
  unfolding relay_event
  relay_event-Outcome s =
      guarded-Outcome s (relay_already_recorded env event.source_event_hash s) refl
