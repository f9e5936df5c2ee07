-- ===== src/ReservePath/Watcher.antt =====
-- `run_watcher_cycle` of services/treasury/src/reserve_path.rs.
use web_3_bank.Prelude.{
  ℕ, ◌+◌, ◌-◌, max, Bool, true, false, not, ◌&&◌, Option, none, some, List, [], ◌∷◌, if◌then◌else◌,
  Bytes, get_elem?,
}
use web_3_bank.Prelude.Dict.{Dict, get, insert, contains}
use web_3_bank.Watcher.Events.{RpcLog}
use web_3_bank.ReservePath.ReserveOps.{
  ReserveStatus, completed, ReserveRow, find_by_dest_and_message_id, list_stuck, update_completed,
  update_failed,
}
use web_3_bank.ReservePath.Calls.{Env, State, later, write}

abbrev pub is_completed : ReserveStatus → Bool
is_completed completed = true
is_completed _ = false

-- `row.status != "completed"`
unfoldable pub complete_row : Env → Option ReserveRow → State → State
complete_row env none s = s
complete_row env (some row) s =
    if is_completed row.status then s else write env (update_completed row.op_id) s

-- A failed query reads as no row.
unfoldable pub lookup_row : Env → ℕ → Bytes → State → Option ReserveRow
unfolding find_by_dest_and_message_id
lookup_row env chain message_id s =
    if env.database_up s.net.tick
    then find_by_dest_and_message_id chain message_id s.reserve_ops
    else none

-- A log of the topic; fewer than two topics are skipped.
unfoldable pub on_completed_log : Env → ℕ → Option Bytes → State → State
unfolding complete_row lookup_row
on_completed_log env chain none s = s
on_completed_log env chain (some message_id) s =
    complete_row env (lookup_row env chain message_id s) (later s)

unfoldable pub on_completed_logs : Env → ℕ → List RpcLog → State → State
unfolding on_completed_log
on_completed_logs env chain [] s = s
on_completed_logs env chain (log ∷ logs) s =
    on_completed_logs env chain logs (on_completed_log env chain (get_elem? log.topics 1) s)

abbrev pub max_block_range : ℕ
max_block_range = 2000

-- `cursor.entry(chain).or_insert(to_block)`
unfoldable pub cursor_at : ℕ → ℕ → State → ℕ
cursor_at chain to_block s = elim (get chain s.watcher_cursor) [
  | none ↦ to_block
  | some prev ↦ prev
]

-- The first block of the scan up to a block.
unfoldable pub scan_from : ℕ → ℕ → ℕ
scan_from prev to_block = max prev (to_block - max_block_range)

-- With the chain's latest block.
unfoldable pub scan_chain : Env → ℕ → Bytes → Bytes → Option ℕ → State → State
unfolding on_completed_logs scan_from cursor_at
scan_chain env chain rpc_url bank_addr none s = s
scan_chain env chain rpc_url bank_addr (some to_block) s =
    on_completed_logs env chain
      (env.fetch_logs s.net.tick rpc_url bank_addr env.reserve_bridge_completed_topic
        (scan_from (cursor_at chain to_block s) to_block) to_block)
      (record (later s) { watcher_cursor = insert chain (to_block + 1) s.watcher_cursor })

unfoldable pub watch_chain : Env → ℕ → Bytes → Option Bytes → State → State
unfolding scan_chain
watch_chain env chain rpc_url none s = s
watch_chain env chain rpc_url (some bank_addr) s =
    scan_chain env chain rpc_url bank_addr (env.fetch_block_number s.net.tick rpc_url) (later s)

-- The sets are those at the cycle's start.
unfoldable pub watch_chains : Env → List ℕ → List ℕ → Dict Bytes → State → State
unfolding watch_chain
watch_chains env active decommissioned [] s = s
watch_chains env active decommissioned ((chain, rpc_url) ∷ urls) s =
    let usable = contains chain active && not (contains chain decommissioned) in
    let watched = watch_chain env chain rpc_url (get chain env.contract_addresses) s in
    watch_chains env active decommissioned urls (if usable then watched else s)

unfoldable pub fail_rows : Env → List ReserveRow → State → State
fail_rows env [] s = s
fail_rows env (row ∷ rows) s = fail_rows env rows (write env (update_failed row.op_id) s)

-- A failed query reads as no rows.
unfoldable pub time_out_stuck : Env → ℕ → State → State
unfolding fail_rows list_stuck
time_out_stuck env secs s =
    fail_rows env
      (if env.database_up s.net.tick
        then list_stuck (env.database_now s.net.tick) secs s.reserve_ops
        else [])
      (later s)

unfoldable pub run_watcher_cycle : Env → ℕ → State → State
unfolding watch_chains time_out_stuck
run_watcher_cycle env stuck_timeout_secs s =
    time_out_stuck env stuck_timeout_secs
      (watch_chains env s.active_chains s.decommissioned_chains env.rpc_urls s)
