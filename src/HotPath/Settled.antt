-- ===== src/HotPath/Settled.antt =====
-- The pending rows of `relay_event`, services/treasury/src/hot_path.rs.
use web_3_bank.Prelude.{
  ℕ, ◌≡◌, ◌≢◌, ◌⊎◌, refl, true, false, Bool-cases, inl, inr, none, List, [], ◌∷◌, Bytes, ◌===◌,
  ===_iff, arith, All, All-map,
}
use web_3_bank.Eth.Submit.{Result, ok, err, submit_with_retry, Logs}
use web_3_bank.Domain.Relay.{
  RelayStatus, pending, completed, failed, rejected_inactive_chain, rejected_insufficient_depth,
  as_str,
}
use web_3_bank.HotPath.RelayLogs.{
  HotPathEvent, RelayRow, relay_recorded, insert_relay_log, row_of, update_relay_log,
  update_relay_log_failed,
}
use web_3_bank.HotPath.Relay.{Env, State, write, release_call, settle, release, relay_event}
use web_3_bank.HotPath.Lifecycle.{relay_event_keeps}

abbrev pub IsSettled : RelayRow → Type 0
IsSettled r = r.status ≢ as_str pending

-- Settled, or the row of the given event.
abbrev IsSettledBut : Bytes → RelayRow → Type 0
IsSettledBut h r = IsSettled r ⊎ (r.source_event_hash ≡ h)

-- The texts of the other statuses are not that of `Pending`.
as_str-ne-pending : (status : RelayStatus) → status ≢ pending → as_str status ≢ as_str pending
unfolding as_str
as_str-ne-pending pending h e = h refl
as_str-ne-pending completed h e = ground arith
as_str-ne-pending failed h e = ground arith
as_str-ne-pending rejected_inactive_chain h e = ground arith
as_str-ne-pending rejected_insufficient_depth h e = ground arith

weaken : (h : Bytes) (rows : List RelayRow) → All IsSettled rows → All (IsSettledBut h) rows
weaken h rows a = All-map IsSettled (IsSettledBut h) (λ r. inl) rows a

insert-IsSettled :
    (event : HotPathEvent) (status : RelayStatus) (rows : List RelayRow)
    → status ≢ pending
    → All IsSettled rows
    → All IsSettled (insert_relay_log event none status rows)
unfolding insert_relay_log row_of
insert-IsSettled event status rows s a =
    elim (Bool-cases (relay_recorded event.source_event_hash rows)) [
      | inl old ↦ rw old a
      | inr new ↦ rw new (as_str-ne-pending status s, a)
    ]

insert-IsSettledBut :
    (event : HotPathEvent) (rows : List RelayRow)
    → All IsSettled rows
    → All (IsSettledBut event.source_event_hash) (insert_relay_log event none pending rows)
unfolding insert_relay_log row_of
insert-IsSettledBut event rows a = elim (Bool-cases (relay_recorded event.source_event_hash rows)) [
  | inl old ↦ rw old (weaken event.source_event_hash rows a)
  | inr new ↦ rw new (inr refl, weaken event.source_event_hash rows a)
]

-- A row that is not the event's own is settled.
other :
    (h : Bytes) (r : RelayRow)
    → (r.source_event_hash === h) ≡ false
    → IsSettledBut h r
    → IsSettled r
other h r ne (inl s) = s
other h r ne (inr e) = let same = (===_iff r.source_event_hash h).1 e in cc

update-IsSettled :
    (h tx : Bytes) (rows : List RelayRow)
    → All (IsSettledBut h) rows
    → All IsSettled (update_relay_log h tx completed rows)
unfolding update_relay_log
update-IsSettled h tx [] a = tt
update-IsSettled h tx (r ∷ rows) a = elim (Bool-cases (r.source_event_hash === h)) [
  | inl own ↦ rw own (as_str-ne-pending completed (λ e. cc), update-IsSettled h tx rows a.1)
  | inr ne ↦ rw ne (other h r ne a.0, update-IsSettled h tx rows a.1)
]

update_failed-IsSettled :
    (h : Bytes) (rows : List RelayRow)
    → All (IsSettledBut h) rows
    → All IsSettled (update_relay_log_failed h rows)
unfolding update_relay_log_failed
update_failed-IsSettled h [] a = tt
update_failed-IsSettled h (r ∷ rows) a = elim (Bool-cases (r.source_event_hash === h)) [
  | inl own ↦ rw own (as_str-ne-pending failed (λ e. cc), update_failed-IsSettled h rows a.1)
  | inr ne ↦ rw ne (other h r ne a.0, update_failed-IsSettled h rows a.1)
]

module _ (env : Env) (event : HotPathEvent) (up : (t : ℕ) → env.database_up t ≡ true) where
  settle-IsSettled :
      (r : Result (Bytes × Logs)) (s : State)
      → All (IsSettledBut event.source_event_hash) s.relay_logs
      → All IsSettled (settle env event r s).relay_logs
  unfolding settle
  settle-IsSettled (ok (tx, logs)) s a =
      rw (up s.net.tick) (update-IsSettled event.source_event_hash tx s.relay_logs a)
  settle-IsSettled (err e) s a =
      rw (up s.net.tick) (update_failed-IsSettled event.source_event_hash s.relay_logs a)

  release-IsSettled :
      (rpc bank : Bytes) (s : State)
      → All IsSettled s.relay_logs
      → All IsSettled (release env event rpc bank s).relay_logs
  unfolding release
  release-IsSettled rpc bank s a =
      let s' = write env (insert_relay_log event none pending) s in
      let (r, net) =
        submit_with_retry env.node (release_call env rpc bank event) env.relayer_key
          env.relayer_address s'.net in
      settle-IsSettled r (record s' { net = net })
        (rw (up s.net.tick) (insert-IsSettledBut event s.relay_logs a))

-- If the database answers every query and no row is pending before an event is handled, none is
-- afterwards: a release ends as completed or failed.
pub relay_event-IsSettled :
    (env : Env) (event : HotPathEvent)
    → ((t : ℕ) → env.database_up t ≡ true)
    → (s : State) → All IsSettled s.relay_logs
    → All IsSettled (relay_event env event s).relay_logs
relay_event-IsSettled env event up =
    relay_event_keeps env event (All IsSettled)
      (λ status rows ne a. insert-IsSettled event status rows ne a) (release-IsSettled env event up)
