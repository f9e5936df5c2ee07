-- ===== src/HotPath/Lifecycle.antt =====
-- What `relay_event` of services/treasury/src/hot_path.rs keeps of the rows.
use web_3_bank.Prelude.{
  ℕ, ◌≡◌, ◌≢◌, refl, Bool, true, false, Bool-cases, Option-cases, inl, inr, Option, none, some,
  List, [], ◌∷◌, Bytes, arith,
}
use web_3_bank.Prelude.Dict.{get}
use web_3_bank.Eth.Submit.{Result, ok, err, submit_with_retry, Logs}
use web_3_bank.Domain.Relay.{
  RelayDecision, approved, inactive_chain, insufficient_depth, evaluate_relay_eligibility,
  RelayStatus, pending, completed, rejected_inactive_chain, rejected_insufficient_depth,
}
use web_3_bank.HotPath.RelayLogs.{
  HotPathEvent, RelayRow, relay_recorded, insert_relay_log, update_relay_log,
  update_relay_log_failed,
}
use web_3_bank.HotPath.Relay.{
  Env, State, later, write, is_chain_active, relay_already_recorded, release_call, settle, release,
  act_on, with_depth, on_chain, resolve, relay_event,
}

-- `source_event_hash TEXT NOT NULL UNIQUE`
abbrev pub IsUnique : List RelayRow → Type 0
IsUnique [] = Unit
IsUnique (r ∷ rows) = (relay_recorded r.source_event_hash rows ≡ false) × IsUnique rows

insert-IsUnique :
    (event : HotPathEvent) (tx : Option Bytes) (status : RelayStatus) (rows : List RelayRow)
    → IsUnique rows
    → IsUnique (insert_relay_log event tx status rows)
unfolding insert_relay_log
insert-IsUnique event tx status rows h =
    elim (Bool-cases (relay_recorded event.source_event_hash rows)) [
      | inl old ↦ rw old h
      | inr new ↦ rw new (new, h)
    ]

pub recorded-update :
    (g h tx : Bytes) (status : RelayStatus) (rows : List RelayRow)
    → relay_recorded g (update_relay_log h tx status rows) ≡ relay_recorded g rows
unfolding update_relay_log relay_recorded
recorded-update g h tx status [] = refl
recorded-update g h tx status (r ∷ rows) = ground (arith, recorded-update g h tx status rows)

update-IsUnique :
    (h tx : Bytes) (status : RelayStatus) (rows : List RelayRow)
    → IsUnique rows
    → IsUnique (update_relay_log h tx status rows)
unfolding update_relay_log
update-IsUnique h tx status [] u = tt
update-IsUnique h tx status (r ∷ rows) u = ground (
  arith,
  update-IsUnique h tx status rows u.1,
  recorded-update r.source_event_hash h tx status rows,
)

pub recorded-update_failed :
    (g h : Bytes) (rows : List RelayRow)
    → relay_recorded g (update_relay_log_failed h rows) ≡ relay_recorded g rows
unfolding update_relay_log_failed relay_recorded
recorded-update_failed g h [] = refl
recorded-update_failed g h (r ∷ rows) = ground (arith, recorded-update_failed g h rows)

update_failed-IsUnique :
    (h : Bytes) (rows : List RelayRow) → IsUnique rows → IsUnique (update_relay_log_failed h rows)
unfolding update_relay_log_failed
update_failed-IsUnique h [] u = tt
update_failed-IsUnique h (r ∷ rows) u =
    ground
      (arith, update_failed-IsUnique h rows u.1, recorded-update_failed r.source_event_hash h rows)

-- Every way through `relay_event` writes by these queries alone, so a property of the table that
-- each of them keeps, and that a rejection or a whole release keeps, is kept.
module _ (env : Env) (event : HotPathEvent) (P : List RelayRow → Type 0)
    (rejects : (status : RelayStatus) (rows : List RelayRow)
      → status ≢ pending
      → P rows
      → P (insert_relay_log event none status rows))
    (releases : (rpc bank : Bytes) (s : State)
      → P s.relay_logs
      → P (release env event rpc bank s).relay_logs) where
  write_keeps :
      (f : List RelayRow → List RelayRow) (s : State)
      → P s.relay_logs
      → P (f s.relay_logs)
      → P (write env f s).relay_logs
  write_keeps f s h k = elim (Bool-cases (env.database_up s.net.tick)) [
    | inl up ↦ rw up k
    | inr down ↦ rw down h
  ]

  act_on_keeps :
      (rpc bank : Bytes) (d : RelayDecision) (s : State)
      → P s.relay_logs
      → P (act_on env event rpc bank d s).relay_logs
  unfolding act_on
  act_on_keeps rpc bank approved s h = releases rpc bank s h
  act_on_keeps rpc bank inactive_chain s h =
      write_keeps (insert_relay_log event none rejected_inactive_chain) s h
        (rejects rejected_inactive_chain s.relay_logs (λ e. cc) h)
  act_on_keeps rpc bank insufficient_depth s h =
      write_keeps (insert_relay_log event none rejected_insufficient_depth) s h
        (rejects rejected_insufficient_depth s.relay_logs (λ e. cc) h)

  with_depth_keeps :
      (rpc bank : Bytes) (d : Option ℕ) (s : State)
      → P s.relay_logs
      → P (with_depth env event rpc bank d s).relay_logs
  unfolding with_depth
  with_depth_keeps rpc bank none s h = h
  with_depth_keeps rpc bank (some depth) s h =
      act_on_keeps rpc bank (evaluate_relay_eligibility true depth event.amount) s h

  on_chain_keeps :
      (rpc bank : Bytes) (active : Bool) (s : State)
      → P s.relay_logs
      → P (on_chain env event rpc bank active s).relay_logs
  unfolding on_chain
  on_chain_keeps rpc bank true s h =
      with_depth_keeps rpc bank
        (env.node.fetch_u256_view s.net.tick rpc bank env.pool_depth_selector) (later s) h
  on_chain_keeps rpc bank false s h =
      act_on_keeps rpc bank (evaluate_relay_eligibility false 0 event.amount) s h

  resolve_keeps : (s : State) → P s.relay_logs → P (resolve env event s).relay_logs
  unfolding resolve
  resolve_keeps s h = elim (Option-cases (get event.dest_chain_id env.rpc_urls)) [
    | inl no_rpc ↦ rw (no_rpc, resolve) h
    | inr (rpc, has_rpc) ↦ elim (Option-cases (get event.dest_chain_id env.contract_addresses)) [
      | inl no_bank ↦ rw (has_rpc, no_bank, resolve) h
      | inr (bank, has_bank) ↦
          rw (has_rpc, has_bank, resolve)
            (on_chain_keeps rpc bank (is_chain_active event.dest_chain_id s) s h)
    ]
  ]

  pub relay_event_keeps : (s : State) → P s.relay_logs → P (relay_event env event s).relay_logs
  unfolding relay_event
  relay_event_keeps s h = guarded (relay_already_recorded env event.source_event_hash s)
    where
      guarded :
          (recorded : Bool)
          → P
              (elim recorded as (λ _. State) [
                | true ↦ later s
                | false ↦ resolve env event (later s)
              ]).relay_logs
      guarded true = h
      guarded false = resolve_keeps (later s) h

module _ (env : Env) (event : HotPathEvent) where
  settle-IsUnique :
      (r : Result (Bytes × Logs)) (s : State)
      → IsUnique s.relay_logs
      → IsUnique (settle env event r s).relay_logs
  unfolding settle
  settle-IsUnique (ok (tx, logs)) s u = elim (Bool-cases (env.database_up s.net.tick)) [
    | inl up ↦ rw up (update-IsUnique event.source_event_hash tx completed s.relay_logs u)
    | inr down ↦ rw down u
  ]
  settle-IsUnique (err e) s u = elim (Bool-cases (env.database_up s.net.tick)) [
    | inl up ↦ rw up (update_failed-IsUnique event.source_event_hash s.relay_logs u)
    | inr down ↦ rw down u
  ]

  release-IsUnique :
      (rpc bank : Bytes) (s : State)
      → IsUnique s.relay_logs
      → IsUnique (release env event rpc bank s).relay_logs
  unfolding release
  release-IsUnique rpc bank s u =
      let s' = write env (insert_relay_log event none pending) s in
      let (r, net) =
        submit_with_retry env.node (release_call env rpc bank event) env.relayer_key
          env.relayer_address s'.net in
      settle-IsUnique r (record s' { net = net })
        (elim (Bool-cases (env.database_up s.net.tick)) [
          | inl up ↦ rw up (insert-IsUnique event none pending s.relay_logs u)
          | inr down ↦ rw down u
        ])

  -- Handling an event keeps the table's rule of one row for each source event hash.
  relay_event-IsUnique :
      (s : State) → IsUnique s.relay_logs → IsUnique (relay_event env event s).relay_logs
  relay_event-IsUnique =
      relay_event_keeps env event IsUnique
        (λ status rows _ u. insert-IsUnique event none status rows u) release-IsUnique
