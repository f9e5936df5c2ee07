-- ===== src/HotPath/Recorded.antt =====
-- The record of an event that `relay_event` of services/treasury/src/hot_path.rs handled.
use web_3_bank.Prelude.{
  ℕ, ◌+◌, ◌≡◌, ◌≢◌, refl, Bool, true, false, none, some, List, Bytes, ===_refl, arith,
}
use web_3_bank.Prelude.Dict.{get}
use web_3_bank.Eth.Submit.{Result, ok, err, submit_with_retry, Logs}
use web_3_bank.Domain.Relay.{
  RelayDecision, approved, inactive_chain, insufficient_depth, evaluate_relay_eligibility,
  RelayStatus, pending, completed, rejected_inactive_chain, rejected_insufficient_depth,
}
use web_3_bank.HotPath.RelayLogs.{HotPathEvent, RelayRow, relay_recorded, insert_relay_log, row_of}
use web_3_bank.HotPath.Relay.{
  Env, State, later, write, release_call, settle, release, act_on, with_depth, on_chain, resolve,
  is_chain_active, relay_already_recorded, relay_event,
}
use web_3_bank.HotPath.Lifecycle.{recorded-update, recorded-update_failed}

abbrev IsRecorded : HotPathEvent → State → Type 0
IsRecorded event s = relay_recorded event.source_event_hash s.relay_logs ≡ true

recorded-insert :
    (event : HotPathEvent) (status : RelayStatus) (rows : List RelayRow)
    → relay_recorded event.source_event_hash (insert_relay_log event none status rows) ≡ true
unfolding insert_relay_log row_of relay_recorded
recorded-insert event status rows = ground (arith, ===_refl event.source_event_hash)

-- The destination has an RPC URL and a bank contract, and its depth can be read when it is asked for.
pub record CanDecide (env : Env) (event : HotPathEvent) (s : State) : Type 0 where
  pub rpc_url : Bytes
  pub bank_addr : Bytes
  pub depth : ℕ
  pub has_rpc : get event.dest_chain_id env.rpc_urls ≡ some rpc_url
  pub has_bank : get event.dest_chain_id env.contract_addresses ≡ some bank_addr
  pub readable :
      env.node.fetch_u256_view (s.net.tick + 1) rpc_url bank_addr env.pool_depth_selector
      ≡ some depth

seen-IsRecorded :
    (env : Env) (event : HotPathEvent) (s : State)
    → relay_already_recorded env event.source_event_hash s ≡ true
    → IsRecorded event s
unfolding relay_already_recorded
seen-IsRecorded env event s h = ground arith

IsRecorded-seen :
    (env : Env) (event : HotPathEvent) (s : State)
    → env.database_up s.net.tick ≡ true
    → IsRecorded event s
    → relay_already_recorded env event.source_event_hash s ≡ true
unfolding relay_already_recorded
IsRecorded-seen env event s up h = rw (up, h)

module _ (env : Env) (event : HotPathEvent) (up : (t : ℕ) → env.database_up t ≡ true) where
  settle-IsRecorded :
      (r : Result (Bytes × Logs)) (s : State)
      → IsRecorded event s
      → IsRecorded event (settle env event r s)
  unfolding settle
  settle-IsRecorded (ok (tx, logs)) s h =
      rw
        (
          up s.net.tick,
          recorded-update event.source_event_hash event.source_event_hash tx completed s.relay_logs,
        )
        h
  settle-IsRecorded (err e) s h =
      rw
        (
          up s.net.tick,
          recorded-update_failed event.source_event_hash event.source_event_hash s.relay_logs,
        )
        h

  act_on-IsRecorded :
      (rpc bank : Bytes) (d : RelayDecision) (s : State)
      → IsRecorded event (act_on env event rpc bank d s)
  unfolding act_on release
  act_on-IsRecorded rpc bank approved s =
      let s' = write env (insert_relay_log event none pending) s in
      let (r, net) =
        submit_with_retry env.node (release_call env rpc bank event) env.relayer_key
          env.relayer_address s'.net in
      settle-IsRecorded r (record s' { net = net })
        (rw (up s.net.tick) (recorded-insert event pending s.relay_logs))
  act_on-IsRecorded rpc bank inactive_chain s =
      rw (up s.net.tick) (recorded-insert event rejected_inactive_chain s.relay_logs)
  act_on-IsRecorded rpc bank insufficient_depth s =
      rw (up s.net.tick) (recorded-insert event rejected_insufficient_depth s.relay_logs)

  on_chain-IsRecorded :
      (active : Bool) (s : State) (c : CanDecide env event s)
      → IsRecorded event (on_chain env event c.rpc_url c.bank_addr active (later s))
  unfolding on_chain with_depth
  on_chain-IsRecorded true s c = rw c.readable (
      act_on-IsRecorded c.rpc_url c.bank_addr (evaluate_relay_eligibility true c.depth event.amount)
        (later (later s)))
  on_chain-IsRecorded false s c =
      act_on-IsRecorded c.rpc_url c.bank_addr (evaluate_relay_eligibility false 0 event.amount)
        (later s)

  resolve-IsRecorded :
      (s : State) → CanDecide env event s → IsRecorded event (resolve env event (later s))
  unfolding resolve
  resolve-IsRecorded s c =
      rw (c.has_rpc, c.has_bank, resolve)
        (on_chain-IsRecorded (is_chain_active event.dest_chain_id s) s c)

  -- If the database answers every query, an event whose destination has an RPC URL, a bank contract
  -- and a depth that can be read when it is asked for is on record after it is handled.
  pub relay_event-IsRecorded :
      (s : State)
      → CanDecide env event s
      → relay_recorded event.source_event_hash (relay_event env event s).relay_logs ≡ true
  unfolding relay_event
  relay_event-IsRecorded s c = guarded (relay_already_recorded env event.source_event_hash s) refl
    where
      guarded :
          (recorded : Bool)
          → relay_already_recorded env event.source_event_hash s ≡ recorded
          → IsRecorded event (elim recorded as (λ _. State) [
            | true ↦ later s
            | false ↦ resolve env event (later s)
          ])
      guarded true seen = seen-IsRecorded env event s seen
      guarded false fresh = resolve-IsRecorded s c

-- A row for an event's key stops its handling.
recorded_stops :
    (env : Env) (event : HotPathEvent) (s : State)
    → env.database_up s.net.tick ≡ true
    → relay_recorded event.source_event_hash s.relay_logs ≡ true
    → relay_event env event s ≡ later s
unfolding relay_event
recorded_stops env event s up seen =
    guarded (relay_already_recorded env event.source_event_hash s)
      (IsRecorded-seen env event s up seen)
  where
    guarded :
        (recorded : Bool)
        → recorded ≡ true
        → elim recorded as (λ _. State) [ true ↦ later s | false ↦ resolve env event (later s) ]
          ≡ later s
    guarded true e = refl
    guarded false e = cc

-- The key of an event is the hash of its transaction: of two different events of one transaction,
-- the second is dropped. If the database answers every query and the first event's destination can
-- be decided on, then after the first is handled the handling of the second changes no row and sends
-- nothing.
pub same_transaction_dropped :
    (env : Env) (first second : HotPathEvent)
    → ((t : ℕ) → env.database_up t ≡ true)
    → second.source_event_hash ≡ first.source_event_hash
    → second.event_id ≢ first.event_id
    → (s : State) → CanDecide env first s
    → let s' = relay_event env first s in
      let s'' = relay_event env second s' in
      (s''.relay_logs ≡ s'.relay_logs) × (s''.net.sent ≡ s'.net.sent)
same_transaction_dropped env first second up same other s c =
    let s' = relay_event env first s in
    let stop =
      recorded_stops env second s' (up s'.net.tick)
        (rw same (relay_event-IsRecorded env first up s c)) in
    rw stop (refl, refl)
