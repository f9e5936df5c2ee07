-- ===== src/Watcher/Pauses.antt =====
-- The pauses of services/treasury/src/watcher.rs, and its guard on the transfer id.
use web_3_bank.Prelude.{
  ◌≡◌, ◌≢◌, inl, inr, refl, true, false, Bool-cases, Option, some, ◌∷◌, Bytes, ===_refl, ℕ,
}
use web_3_bank.Prelude.Dict.{get}
use web_3_bank.Eth.Submit.{Net, Sent}
use web_3_bank.Eth.Submit.Sends.{IsFor}
use web_3_bank.Eth.Submit.Delivery.{Answers, submit_with_retry-Delivered}
use web_3_bank.Watcher.Events.{
  ReleasedEvent, AlertType, verified, mismatch, source_not_found, cache_get,
}
use web_3_bank.Watcher.Verify.{
  Env, State, later, effective_rpc_urls, transfer_id_hex, alert_recorded, already_verified,
  insert_alert, classify, pause_call, submit_pause, pause_at, pause_with, pause_contract, respond,
  check, verify_release,
}
use web_3_bank.Watcher.Verdicts.{alert_for}

-- A pauser is configured, with an RPC URL and a bank contract for the release's chain, whose node
-- answers, accepts and mines.
pub record CanPause (env : Env) (release : ReleasedEvent) : Type 0 where
  pub key : Bytes
  pub addr : Bytes
  pub rpc_url : Bytes
  pub bank_addr : Bytes
  pub has_key : env.pauser_key ≡ some key
  pub has_addr : env.pauser_address ≡ some addr
  pub has_rpc : get release.dest_chain_id (effective_rpc_urls env) ≡ some rpc_url
  pub has_bank : get release.dest_chain_id env.contract_addresses ≡ some bank_addr
  pub answers : Answers env.node (pause_call env release rpc_url bank_addr)

-- From one state to the next exactly one transaction was sent, a pause of the release's chain.
pub record Pauses (env : Env) (release : ReleasedEvent) (rpc bank : Bytes) (n n' : Net)
    : Type 0 where
  pub pause : Sent
  pub extended : n'.sent ≡ pause ∷ n.sent
  pub makes : IsFor (pause_call env release rpc bank) pause

fresh_checked :
    (env : Env) (release : ReleasedEvent) (s : State)
    → already_verified env (transfer_id_hex release) s ≡ false
    → verify_release env release s ≡ check env release (later s)
unfolding verify_release
fresh_checked env release s h = rw (h, verify_release) refl

recorded_skipped :
    (env : Env) (release : ReleasedEvent) (s : State)
    → already_verified env (transfer_id_hex release) s ≡ true
    → verify_release env release s ≡ later s
unfolding verify_release
recorded_skipped env release s h = rw (h, verify_release) refl

module _ (env : Env) (release : ReleasedEvent) (c : CanPause env release) where
  pause_at-Pauses :
      (s : State)
      → Pauses env release c.rpc_url c.bank_addr s.net (pause_at env release c.key c.addr s).1.net
  unfolding pause_at submit_pause
  pause_at-Pauses s =
      let d =
        submit_with_retry-Delivered env.node (pause_call env release c.rpc_url c.bank_addr)
          c.answers c.key c.addr s.net in
      rw (c.has_rpc, c.has_bank, pause_at)
        (record {
          pause = record { rpc_url = c.rpc_url; tx = d.tx };
          extended = d.extended;
          makes = d.makes;
        })

  pause_with-Pauses :
      (key addr : Option Bytes) (s : State)
      → key ≡ some c.key
      → addr ≡ some c.addr
      → Pauses env release c.rpc_url c.bank_addr s.net (pause_with env release key addr s).1.net
  unfolding pause_with
  pause_with-Pauses key addr s e e' = rw (e, e', pause_with) (pause_at-Pauses s)

  respond-Pauses :
      (alert : AlertType) (s : State)
      → alert ≢ verified
      → Pauses env release c.rpc_url c.bank_addr s.net (respond env release alert s).1.net
  unfolding respond pause_contract
  respond-Pauses verified s bad = absurd (bad refl)
  respond-Pauses mismatch s bad =
      pause_with-Pauses env.pauser_key env.pauser_address s c.has_key c.has_addr
  respond-Pauses source_not_found s bad =
      pause_with-Pauses env.pauser_key env.pauser_address s c.has_key c.has_addr

  -- A release that is not on record and is no verified one pauses its chain: if a pauser is
  -- configured and the node of the chain answers every query, accepts and mines, handling it sends
  -- exactly one transaction, the pause by the bank contract of the release's chain.
  pub verify_release-Pauses :
      (s : State)
      → already_verified env (transfer_id_hex release) s ≡ false
      → alert_for release s ≢ verified
      → Pauses env release c.rpc_url c.bank_addr s.net (verify_release env release s).net
  unfolding check insert_alert
  verify_release-Pauses s fresh bad =
      let p = respond-Pauses (alert_for release s) (later s) bad in
      rw (fresh_checked env release s fresh)
        (record { pause = p.pause; extended = p.extended; makes = p.makes })

module _ (env : Env) (up : (t : ℕ) → env.database_up t ≡ true) where
  insert_alert-recorded :
      (h : Bytes) (alert : AlertType) (detail : Bytes) (s : State)
      → alert_recorded h (insert_alert env h alert detail s).alerts ≡ true
  unfolding insert_alert alert_recorded
  insert_alert-recorded h alert detail s = elim (Bool-cases (alert_recorded h s.alerts)) [
    | inl old ↦ rw (up s.net.tick, old) old
    | inr new ↦ rw (up s.net.tick, new, ===_refl h) refl
  ]

  -- A handled release is on record.
  verify_release-recorded :
      (release : ReleasedEvent) (s : State)
      → alert_recorded (transfer_id_hex release) (verify_release env release s).alerts ≡ true
  unfolding already_verified check
  verify_release-recorded release s =
      elim (Bool-cases (already_verified env (transfer_id_hex release) s)) [
        | inl seen ↦ rw (recorded_skipped env release s seen) (rw (up s.net.tick) at seen)
        | inr fresh ↦
            let found = cache_get release.transfer_id s.initiated_cache in
            let alert = classify release found in
            let (tx, s') = respond env release alert (later s) in
            rw (fresh_checked env release s fresh) (
              insert_alert-recorded (transfer_id_hex release) alert
                (env.detail_json release found tx) s')
      ]

  -- Only the first release of a transfer id is checked: if the database answers every query, then
  -- after one release is handled, handling another release with its transfer id, on whatever chain
  -- and of whatever amount and recipient, sends no pause and stores no alert.
  pub second_release_unchecked :
      (first second : ReleasedEvent) (s : State)
      → second.transfer_id ≡ first.transfer_id
      → let s' = verify_release env first s in
        let s'' = verify_release env second s' in
        (s''.net.sent ≡ s'.net.sent) × (s''.alerts ≡ s'.alerts)
  unfolding already_verified transfer_id_hex
  second_release_unchecked first second s same =
      let s' = verify_release env first s in
      let seen : already_verified env (transfer_id_hex second) s' ≡ true =
        rw (up s'.net.tick, same) (verify_release-recorded first s) in
      rw (recorded_skipped env second s' seen) (refl, refl)
