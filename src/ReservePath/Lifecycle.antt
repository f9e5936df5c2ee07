-- ===== src/ReservePath/Lifecycle.antt =====
-- The steps of services/treasury/src/reserve_path.rs, and what they make of the table.
use web_3_bank.Prelude.{ℕ, ◌≡◌, refl, true, false, Bool-cases, inl, inr, List, [], ◌∷◌}
use web_3_bank.ReservePath.ReserveOps.{
  completed, ReserveRow, is_in_flight, is_stuck, list_stuck, update_failed, update_completed,
}
use web_3_bank.ReservePath.Calls.{Env, State, later, write}
use web_3_bank.ReservePath.Watcher.{watch_chains, fail_rows, time_out_stuck, run_watcher_cycle}
use web_3_bank.ReservePath.Table.{IsUnique}
use web_3_bank.ReservePath.Listing.{Listed, list-Listed}
use web_3_bank.ReservePath.Moves.{
  completes, stays, then_, Advances, Advances-refl, Advances-trans, update-Advances,
}
use web_3_bank.ReservePath.WatchCases.{scan-cases}
use web_3_bank.ReservePath.Turns.{fail-Turns, write-Turns, still_listed}

module _ (env : Env) where
  watch_chains-Advances :
      (s : State)
      → IsUnique s.reserve_ops
      → Advances s.reserve_ops
          (watch_chains env s.active_chains s.decommissioned_chains env.rpc_urls s).reserve_ops
  watch_chains-Advances s u =
      scan-cases env (Advances s.reserve_ops)
        (λ chain m row now rows seen found a.
          Advances-trans s.reserve_ops rows (update_completed row.op_id now rows) a (
            update-Advances row.op_id (λ r. record r { status = completed; updated_at = now })
              (λ _. completed) rows (λ r. refl) (λ r. refl) (λ b _. then_ stays completes)
              a.unique))
        s (Advances-refl s.reserve_ops u)

  fail_rows-Advances :
      (l : List ReserveRow) (s : State)
      → Listed is_in_flight s.reserve_ops l
      → IsUnique s.reserve_ops
      → Advances s.reserve_ops (fail_rows env l s).reserve_ops
  unfolding fail_rows
  fail_rows-Advances [] s h u = Advances-refl s.reserve_ops u
  fail_rows-Advances (row ∷ l) s h u =
      let (a, (is, flying)) = h.statuses.0 in
      let s' = write env (update_failed row.op_id) s in
      let one =
        write-Turns env row.op_id (update_failed row.op_id) s u
          (fail-Turns row.op_id (env.database_now s.net.tick) s.reserve_ops a is flying u) in
      Advances-trans s.reserve_ops s'.reserve_ops (fail_rows env l s').reserve_ops one.advances (
        fail_rows-Advances l s'
          (record {
            different = h.different.1;
            statuses =
                still_listed is_in_flight row.op_id s.reserve_ops s'.reserve_ops l one h.different.0
                  h.statuses.1;
          })
          one.advances.unique)

  -- A stuck row is in flight.
  pub stuck_flies :
      (now secs : ℕ) (r : ReserveRow) → is_stuck now secs r ≡ true → is_in_flight r.status ≡ true
  unfolding is_stuck
  stuck_flies now secs r h = elim (Bool-cases (is_in_flight r.status)) [
    | inl flying ↦ flying
    | inr other ↦ let wrong : false ≡ true = rw other at h in cc
  ]

  time_out_stuck-Advances :
      (secs : ℕ) (s : State)
      → IsUnique s.reserve_ops
      → Advances s.reserve_ops (time_out_stuck env secs s).reserve_ops
  unfolding time_out_stuck list_stuck
  time_out_stuck-Advances secs s u = elim (Bool-cases (env.database_up s.net.tick)) [
    | inl up ↦
        let now = env.database_now s.net.tick in
        rw up (
          fail_rows-Advances (list_stuck now secs s.reserve_ops) (later s)
            (list-Listed (is_stuck now secs) is_in_flight s.reserve_ops (stuck_flies now secs) u) u)
    | inr down ↦
        rw down (fail_rows-Advances [] (later s) (record { different = tt; statuses = tt }) u)
  ]

  pub run_watcher_cycle-Advances :
      (secs : ℕ) (s : State)
      → IsUnique s.reserve_ops
      → Advances s.reserve_ops (run_watcher_cycle env secs s).reserve_ops
  unfolding run_watcher_cycle
  run_watcher_cycle-Advances secs s u =
      let s' = watch_chains env s.active_chains s.decommissioned_chains env.rpc_urls s in
      let one = watch_chains-Advances s u in
      Advances-trans s.reserve_ops s'.reserve_ops (time_out_stuck env secs s').reserve_ops one
        (time_out_stuck-Advances secs s' one.unique)
