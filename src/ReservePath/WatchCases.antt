-- ===== src/ReservePath/WatchCases.antt =====
-- The ways through the scan of `run_watcher_cycle`, services/treasury/src/reserve_path.rs.
use web_3_bank.Prelude.{
  ℕ, suc, ◌+◌, ◌≡◌, refl, Bool, true, false, not, ◌&&◌, Bool-cases, inl, inr, Option, none, some,
  List, [], ◌∷◌, if◌then◌else◌, Bytes, get_elem?,
}
use web_3_bank.Prelude.Dict.{Dict, get, insert, contains}
use web_3_bank.Watcher.Events.{RpcLog}
use web_3_bank.ReservePath.ReserveOps.{ReserveRow, find_by_dest_and_message_id, update_completed}
use web_3_bank.ReservePath.Calls.{Env, State, later, write}
use web_3_bank.ReservePath.Watcher.{
  is_completed, complete_row, lookup_row, on_completed_log, on_completed_logs, cursor_at, scan_from,
  scan_chain, watch_chain, watch_chains,
}

-- A configured chain's bank contract, when its node was asked for the logs of the topic of
-- `ReserveBridgeCompleted`, had a log with the message's identifier as its second topic.
pub record Sighting (env : Env) (chain : ℕ) (message_id : Bytes) : Type 0 where
  pub entry : ℕ
  pub tick : ℕ
  pub from : ℕ
  pub to : ℕ
  pub place : ℕ
  pub rpc : Bytes
  pub bank : Bytes
  pub log : RpcLog
  pub configured : get_elem? env.rpc_urls entry ≡ some (chain, rpc)
  pub contract : get chain env.contract_addresses ≡ some bank
  pub logged :
      get_elem? (env.fetch_logs tick rpc bank env.reserve_bridge_completed_topic from to) place
      ≡ some log
  pub names : get_elem? log.topics 1 ≡ some message_id

-- The scan completes rows alone, each found by the chain and the message of a sighting.
module _ (env : Env) (P : List ReserveRow → Type 0)
    (completes : (chain : ℕ) (message_id : Bytes) (row : ReserveRow) (now : ℕ)
        (rows : List ReserveRow)
      → Sighting env chain message_id
      → find_by_dest_and_message_id chain message_id rows ≡ some row
      → P rows
      → P (update_completed row.op_id now rows)) where
  complete_row-cases :
      (chain : ℕ) (message_id : Bytes) (found : Option ReserveRow) (s : State)
      → Sighting env chain message_id
      → ((row : ReserveRow)
          → found ≡ some row
          → find_by_dest_and_message_id chain message_id s.reserve_ops ≡ some row)
      → P s.reserve_ops
      → P (complete_row env found s).reserve_ops
  unfolding complete_row
  complete_row-cases chain message_id none s seen is p = p
  complete_row-cases chain message_id (some row) s seen is p =
      elim (Bool-cases (is_completed row.status)) [
        | inl already ↦ rw already p
        | inr unfinished ↦ rw unfinished stored
      ]
    where
      stored : P (write env (update_completed row.op_id) s).reserve_ops
      stored = elim (Bool-cases (env.database_up s.net.tick)) [
        | inl up ↦ rw up (
            completes chain message_id row (env.database_now s.net.tick) s.reserve_ops seen
              (is row refl) p)
        | inr down ↦ rw down p
      ]

  looked_up :
      (chain : ℕ) (message_id : Bytes) (s : State) (row : ReserveRow)
      → lookup_row env chain message_id s ≡ some row
      → find_by_dest_and_message_id chain message_id s.reserve_ops ≡ some row
  unfolding lookup_row
  looked_up chain message_id s row h = elim (Bool-cases (env.database_up s.net.tick)) [
    | inl up ↦ rw up at h
    | inr down ↦ let missing : none ≡ some row = rw down at h in cc
  ]

  on_completed_logs-cases :
      (chain : ℕ) (logs : List RpcLog) (s : State)
      → ((place : ℕ) (log : RpcLog) (message_id : Bytes)
          → get_elem? logs place ≡ some log
          → get_elem? log.topics 1 ≡ some message_id
          → Sighting env chain message_id)
      → P s.reserve_ops
      → P (on_completed_logs env chain logs s).reserve_ops
  unfolding on_completed_logs on_completed_log
  on_completed_logs-cases chain [] s seen p = p
  on_completed_logs-cases chain (log ∷ logs) s seen p =
      on_completed_logs-cases chain logs (on_completed_log env chain (get_elem? log.topics 1) s)
        (λ place l m is names. seen (suc place) l m is names)
        (one_log (get_elem? log.topics 1) refl)
    where
      one_log :
          (topic : Option Bytes)
          → get_elem? log.topics 1 ≡ topic
          → P (on_completed_log env chain topic s).reserve_ops
      one_log none e = p
      one_log (some m) e =
          complete_row-cases chain m (lookup_row env chain m s) (later s) (seen 0 log m refl e)
            (looked_up chain m s) p

  watch_chain-cases :
      (entry chain : ℕ) (rpc : Bytes) (bank : Option Bytes) (s : State)
      → get_elem? env.rpc_urls entry ≡ some (chain, rpc)
      → get chain env.contract_addresses ≡ bank
      → P s.reserve_ops
      → P (watch_chain env chain rpc bank s).reserve_ops
  unfolding watch_chain scan_chain
  watch_chain-cases entry chain rpc none s configured contract p = p
  watch_chain-cases entry chain rpc (some bank) s configured contract p =
      scanned (env.fetch_block_number s.net.tick rpc) (later s) p
    where
      scanned :
          (to_block : Option ℕ) (t : State)
          → P t.reserve_ops
          → P (scan_chain env chain rpc bank to_block t).reserve_ops
      scanned none t q = q
      scanned (some to_block) t q =
          let from = scan_from (cursor_at chain to_block t) to_block in
          on_completed_logs-cases chain
            (env.fetch_logs t.net.tick rpc bank env.reserve_bridge_completed_topic from to_block)
            (record (later t) { watcher_cursor = insert chain (to_block + 1) t.watcher_cursor })
            (λ place log m logged names. record {
              entry = entry;
              tick = t.net.tick;
              from = from;
              to = to_block;
              place = place;
              rpc = rpc;
              bank = bank;
              log = log;
              configured = configured;
              contract = contract;
              logged = logged;
              names = names;
            })
            q

  watch_chains-cases :
      (active decommissioned : List ℕ) (urls : Dict Bytes) (s : State)
      → ((entry : ℕ) (e : ℕ × Bytes)
          → get_elem? urls entry ≡ some e
          → (k : ℕ) × (get_elem? env.rpc_urls k ≡ some e))
      → P s.reserve_ops
      → P (watch_chains env active decommissioned urls s).reserve_ops
  unfolding watch_chains
  watch_chains-cases active decommissioned [] s known p = p
  watch_chains-cases active decommissioned ((chain, rpc) ∷ urls) s known p =
      let usable = contains chain active && not (contains chain decommissioned) in
      watch_chains-cases active decommissioned urls
        (if usable then watch_chain env chain rpc (get chain env.contract_addresses) s else s)
        (λ entry e is. known (suc entry) e is) (either usable)
    where
      either :
          (usable : Bool)
          → P
              (if usable
                then watch_chain env chain rpc (get chain env.contract_addresses) s
                else s).reserve_ops
      either true =
          let (k, is) = known 0 (chain, rpc) refl in
          watch_chain-cases k chain rpc (get chain env.contract_addresses) s is refl p
      either false = p

  -- A property of the table that a completion after a sighting keeps is kept by the scan.
  pub scan-cases :
      (s : State)
      → P s.reserve_ops
      → P (watch_chains env s.active_chains s.decommissioned_chains env.rpc_urls s).reserve_ops
  scan-cases s =
      watch_chains-cases s.active_chains s.decommissioned_chains env.rpc_urls s
        (λ entry e is. (entry, is))
