-- ===== src/Watcher/Verdicts.antt =====
-- The ways through `verify_release` of services/treasury/src/watcher.rs.
use web_3_bank.Prelude.{
  ◌≡◌, ◌≢◌, refl, sym, ◌∙◌, Bool, true, false, Bool-cases, Option-cases, inl, inr, Option, none,
  some, Bytes, ◌===◌, ===→eq, ◌==◌, ◌⊎◌, arith,
}
use web_3_bank.Prelude.Dict.{get}
use web_3_bank.Eth.Submit.{Net, max_retries}
use web_3_bank.Eth.Submit.Sends.{Sends, submit_with_retry-Sends}
use web_3_bank.Watcher.Events.{
  InitiatedEvent, ReleasedEvent, AlertType, verified, mismatch, source_not_found, verify_against,
  cache_get,
}
use web_3_bank.Watcher.Verify.{
  Env, State, later, effective_rpc_urls, transfer_id_hex, already_verified, insert_alert, classify,
  pause_call, submit_pause, pause_at, pause_contract, pause_with, respond, check, verify_release,
}

-- The alert that `verify_release` gives a release, from the cache.
abbrev pub alert_for : ReleasedEvent → State → AlertType
alert_for release s = classify release (cache_get release.transfer_id s.initiated_cache)

-- What the handling of a release sends: nothing, or at most three pauses of the release's chain.
pub data Response (env : Env) (release : ReleasedEvent) (n n' : Net) : Type 0 where
  silent : n'.sent ≡ n.sent → Response env release n n'
  paused :
      (rpc_url bank_addr : Bytes)
      → get release.dest_chain_id (effective_rpc_urls env) ≡ some rpc_url
      → get release.dest_chain_id env.contract_addresses ≡ some bank_addr
      → Sends (pause_call env release rpc_url bank_addr) max_retries n n'
      → Response env release n n'

module _ (env : Env) (release : ReleasedEvent) where
  pause_at-Response :
      (key addr : Bytes) (s : State)
      → Response env release s.net (pause_at env release key addr s).1.net
  unfolding pause_at submit_pause
  pause_at-Response key addr s =
      elim (Option-cases (get release.dest_chain_id (effective_rpc_urls env))) [
        | inl no_rpc ↦ rw (no_rpc, pause_at) (silent refl)
        | inr (rpc, has_rpc) ↦
            elim (Option-cases (get release.dest_chain_id env.contract_addresses)) [
              | inl no_bank ↦ rw (has_rpc, no_bank, pause_at) (silent refl)
              | inr (bank, has_bank) ↦
                  rw (has_rpc, has_bank, pause_at)
                    (paused rpc bank has_rpc has_bank (
                      submit_with_retry-Sends env.node (pause_call env release rpc bank) (some key)
                        (some addr) s.net))
            ]
      ]

  pause_with-Response :
      (key addr : Option Bytes) (s : State)
      → Response env release s.net (pause_with env release key addr s).1.net
  unfolding pause_with
  pause_with-Response none addr s = silent refl
  pause_with-Response (some key) none s = silent refl
  pause_with-Response (some key) (some addr) s = pause_at-Response key addr s

  respond-Response :
      (alert : AlertType) (s : State)
      → alert ≢ verified
      → Response env release s.net (respond env release alert s).1.net
  unfolding respond pause_contract
  respond-Response verified s ne = silent refl
  respond-Response mismatch s ne = pause_with-Response env.pauser_key env.pauser_address s
  respond-Response source_not_found s ne = pause_with-Response env.pauser_key env.pauser_address s

-- How the handling of a release may end.
pub data Verdict (env : Env) (release : ReleasedEvent) (s s' : State) : Type 0 where
  skipped :
      already_verified env (transfer_id_hex release) s ≡ true
      → s'.net.sent ≡ s.net.sent
      → s'.alerts ≡ s.alerts
      → Verdict env release s s'
  passed :
      (initiated : InitiatedEvent)
      → already_verified env (transfer_id_hex release) s ≡ false
      → cache_get release.transfer_id s.initiated_cache ≡ some initiated
      → release.amount ≡ initiated.amount
      → release.recipient ≡ initiated.recipient
      → s'.net.sent ≡ s.net.sent
      → Verdict env release s s'
  alarmed :
      already_verified env (transfer_id_hex release) s ≡ false
      → alert_for release s ≢ verified
      → Response env release s.net s'.net
      → Verdict env release s s'

-- A release is verified only by an initiated event of its transfer id, amount and recipient.
classify-verified :
    (release : ReleasedEvent) (found : Option InitiatedEvent)
    → classify release found ≡ verified
    → (initiated : InitiatedEvent) × (found ≡ some initiated)
      × (release.amount ≡ initiated.amount)
      × (release.recipient ≡ initiated.recipient)
unfolding classify verify_against
classify-verified release none h = cc
classify-verified release (some e) h = elim (Bool-cases (release.amount == e.amount)) [
  | inl same ↦ elim (Bool-cases (release.recipient === e.recipient)) [
    | inl own ↦ (e, refl, ground arith, ===→eq release.recipient e.recipient own)
    | inr other ↦ let no : mismatch ≡ verified = rw (same, other) at h in cc
  ]
  | inr differ ↦ let no : mismatch ≡ verified = rw differ at h in cc
]

AlertType-cases : (alert : AlertType) → (alert ≡ verified) ⊎ (alert ≢ verified)
AlertType-cases verified = inl refl
AlertType-cases mismatch = inr (λ e. cc)
AlertType-cases source_not_found = inr (λ e. cc)

-- A response speaks of what was sent only.
Response-cast :
    (env : Env) (release : ReleasedEvent) {n n' : Net} (m m' : Net)
    → m.sent ≡ n.sent
    → m'.sent ≡ n'.sent
    → Response env release n n'
    → Response env release m m'
Response-cast env release m m' e e' (silent h) = silent (e' ∙ (h ∙ sym e))
Response-cast env release m m' e e' (paused rpc bank has_rpc has_bank t) =
    paused rpc bank has_rpc has_bank
      (record { new = t.new; extended = rw (e', e) t.extended; few = t.few; all_for = t.all_for })

module _ (env : Env) (release : ReleasedEvent) where
  respond-verified :
      (alert : AlertType) (s : State)
      → alert ≡ verified
      → (respond env release alert s).1.net.sent ≡ s.net.sent
  unfolding respond
  respond-verified verified s e = refl
  respond-verified mismatch s e = cc
  respond-verified source_not_found s e = cc

  check-Verdict :
      (s : State)
      → already_verified env (transfer_id_hex release) s ≡ false
      → Verdict env release s (check env release (later s))
  unfolding check insert_alert
  check-Verdict s fresh =
      let alert = alert_for release s in
      let s' = (respond env release alert (later s)).1 in
      elim (AlertType-cases alert) [
        | inl good ↦
            let (e, found, amount, recipient) =
              classify-verified release (cache_get release.transfer_id s.initiated_cache) good in
            passed e fresh found amount recipient (respond-verified alert (later s) good)
        | inr bad ↦ alarmed fresh bad (
            Response-cast env release s.net (check env release (later s)).net refl refl
              (respond-Response env release alert (later s) bad))
      ]

  -- Whatever the network and the database answer, handling a release ends in one of three ways. It
  -- was found on record, and nothing is sent or stored. Or an initiated event with its transfer id,
  -- amount and recipient is cached, and nothing is sent. Or it is an anomaly, and what is sent is at
  -- most three pauses of the bank contract of the release's own chain.
  pub verify_release-Verdict : (s : State) → Verdict env release s (verify_release env release s)
  unfolding verify_release
  verify_release-Verdict s = guarded (already_verified env (transfer_id_hex release) s) refl
    where
      guarded :
          (recorded : Bool)
          → already_verified env (transfer_id_hex release) s ≡ recorded
          → Verdict env release s (elim recorded as (λ _. State) [
            | true ↦ later s
            | false ↦ check env release (later s)
          ])
      guarded true seen = skipped seen refl refl
      guarded false fresh = check-Verdict s fresh
