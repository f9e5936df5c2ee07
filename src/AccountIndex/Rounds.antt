-- ===== src/AccountIndex/Rounds.antt =====
-- What the rounds of services/treasury/src/account_index.rs can do to the events and to the requests
-- sent to the user service.
use web_3_bank.Prelude.{
  ℕ, Option, none, some, Option-cases, inl, inr, List, [], ◌∷◌, Bool-cases, leb, length, Bytes,
}
use web_3_bank.Prelude.Dict.{Dict, get}
use web_3_bank.Eth.Quantity.{parse_hex_u64}
use web_3_bank.Watcher.Events.{RpcLog, decode_at_least}
use web_3_bank.AccountIndex.Events.{AccountEventRow}
use web_3_bank.AccountIndex.Parsing.{address_at, transfer_parts}
use web_3_bank.AccountIndex.Ingest.{
  Env, Push, State, later, cached_time, block_time_unix, parse_bank_parts, parse_bank_log,
  parse_transfer_parts, parse_transfer_log, ingest_row,
}
use web_3_bank.AccountIndex.Index.{
  ingest_parsed, ingest_bank_logs, ingest_transfer_logs, resolve_sync_usd, index_transfers,
  index_range, index_to, index_chain, index_chains, poll_round, scan_from, cursor_now,
}

-- A property of the events and the requests that the ingestion of a row keeps.
module _ (env : Env) (Q : List AccountEventRow → List Push → Type 0)
    (ingests : (row : AccountEventRow) (s : State)
      → Q s.events s.pushes
      → Q (ingest_row env row s).events (ingest_row env row s).pushes) where
  abbrev Holds : State → Type 0
  Holds s = Q s.events s.pushes

  time-Holds :
      (chain : ℕ) (rpc_url : Bytes) (block : ℕ) (s : State)
      → Holds s
      → Holds (block_time_unix env chain rpc_url block s).1
  unfolding block_time_unix
  time-Holds chain rpc_url block s h =
      elim (Option-cases (cached_time chain block s.block_time_cache)) [
        | inr (t, hit) ↦ rw (hit, block_time_unix) h
        | inl miss ↦ elim (Option-cases (env.fetch_block_timestamp s.tick rpc_url block)) [
          | inl unknown ↦ rw (miss, unknown, block_time_unix) h
          | inr (t, known) ↦ rw (miss, known, block_time_unix) h
        ]
      ]

  bank_parts-Holds :
      (log : RpcLog) (chain : ℕ) (rpc_url : Bytes) (topic : Option Bytes) (block index : Option ℕ)
      (s : State)
      → Holds s
      → Holds (parse_bank_parts env log chain rpc_url topic block index s).1
  unfolding parse_bank_parts
  bank_parts-Holds log chain rpc_url none block index s h = h
  bank_parts-Holds log chain rpc_url (some topic) none index s h = h
  bank_parts-Holds log chain rpc_url (some topic) (some block) none s h = h
  bank_parts-Holds log chain rpc_url (some topic) (some block) (some index) s h =
      time-Holds chain rpc_url block s h

  transfer_parts-Holds :
      (log : RpcLog) (chain : ℕ) (rpc_url : Bytes) (parts : Option (Bytes × Bytes × Bytes))
      (block index : Option ℕ) (s : State)
      → Holds s
      → Holds (parse_transfer_parts env log chain rpc_url parts block index s).1
  unfolding parse_transfer_parts
  transfer_parts-Holds log chain rpc_url none block index s h = h
  transfer_parts-Holds log chain rpc_url (some parts) none index s h = h
  transfer_parts-Holds log chain rpc_url (some parts) (some block) none s h = h
  transfer_parts-Holds log chain rpc_url (some (from, to, bytes)) (some block) (some index) s h =
      time-Holds chain rpc_url block s h

  transfer_log-Holds :
      (log : RpcLog) (chain : ℕ) (rpc_url bank_addr : Bytes) (s : State)
      → Holds s
      → Holds (parse_transfer_log env log chain rpc_url bank_addr s).1
  unfolding parse_transfer_log
  transfer_log-Holds log chain rpc_url bank_addr s h =
      elim (Bool-cases (leb 3 (length log.topics))) [
        | inl long ↦ rw long (
            transfer_parts-Holds log chain rpc_url
              (transfer_parts bank_addr (address_at 1 log) (address_at 2 log)
                (decode_at_least 32 (some log.payload)))
              (parse_hex_u64 log.block_number) (parse_hex_u64 log.log_index) s h)
        | inr short ↦ rw short h
      ]

  parsed-Holds :
      (parsed : Option AccountEventRow × State) → Holds parsed.1 → Holds (ingest_parsed env parsed)
  parsed-Holds (none, s) h = h
  parsed-Holds (some row, s) h = ingests row s h

  bank_logs-Holds :
      (chain : ℕ) (rpc_url : Bytes) (logs : List RpcLog) (s : State)
      → Holds s
      → Holds (ingest_bank_logs env chain rpc_url logs s)
  unfolding ingest_bank_logs parse_bank_log
  bank_logs-Holds chain rpc_url [] s h = h
  bank_logs-Holds chain rpc_url (log ∷ logs) s h = bank_logs-Holds chain rpc_url logs _ (
      parsed-Holds (parse_bank_log env log chain rpc_url s) (
        bank_parts-Holds log chain rpc_url _ (parse_hex_u64 log.block_number)
          (parse_hex_u64 log.log_index) s h))

  transfer_logs-Holds :
      (chain : ℕ) (rpc_url bank_addr : Bytes) (logs : List RpcLog) (s : State)
      → Holds s
      → Holds (ingest_transfer_logs env chain rpc_url bank_addr logs s)
  unfolding ingest_transfer_logs
  transfer_logs-Holds chain rpc_url bank_addr [] s h = h
  transfer_logs-Holds chain rpc_url bank_addr (log ∷ logs) s h =
      transfer_logs-Holds chain rpc_url bank_addr logs _ (
        parsed-Holds (parse_transfer_log env log chain rpc_url bank_addr s)
          (transfer_log-Holds log chain rpc_url bank_addr s h))

  resolve-Holds :
      (chain : ℕ) (rpc_url bank_addr : Bytes) (s : State)
      → Holds s
      → Holds (resolve_sync_usd env chain rpc_url bank_addr s).1
  unfolding resolve_sync_usd
  resolve-Holds chain rpc_url bank_addr s h = elim (Option-cases (get chain s.sync_usd_cache)) [
    | inr (token, hit) ↦ rw (hit, resolve_sync_usd) h
    | inl miss ↦
        elim (Option-cases
          (env.fetch_address_view s.tick rpc_url bank_addr env.sync_usd_selector)) [
            | inl unknown ↦ rw (miss, unknown, resolve_sync_usd) h
            | inr (token, known) ↦ rw (miss, known, resolve_sync_usd) h
          ]
  ]

  transfers-Holds :
      (chain : ℕ) (rpc_url bank_addr : Bytes) (from to_block : ℕ) (token : Option Bytes × State)
      → Holds token.1
      → Holds (index_transfers env chain rpc_url bank_addr from to_block token)
  unfolding index_transfers
  transfers-Holds chain rpc_url bank_addr from to_block (none, s) h = h
  transfers-Holds chain rpc_url bank_addr from to_block (some token, s) h =
      transfer_logs-Holds chain rpc_url bank_addr
        (env.fetch_logs s.tick rpc_url token env.transfer_topic from to_block) (later s) h

  range-Holds :
      (chain : ℕ) (rpc_url bank_addr : Bytes) (from to_block : ℕ) (s : State)
      → Holds s
      → Holds (index_range env chain rpc_url bank_addr from to_block s)
  unfolding index_range
  range-Holds chain rpc_url bank_addr from to_block s h =
      transfers-Holds chain rpc_url bank_addr from to_block _ (
        resolve-Holds chain rpc_url bank_addr _ (
          bank_logs-Holds chain rpc_url (env.fetch_logs_any s.tick rpc_url bank_addr from to_block)
            (later s) h))

  chain-Holds :
      (chain : ℕ) (rpc_url : Bytes) (bank_addr : Option Bytes) (s : State)
      → Holds s
      → Holds (index_chain env chain rpc_url bank_addr s)
  unfolding index_chain index_to
  chain-Holds chain rpc_url none s h = h
  chain-Holds chain rpc_url (some bank_addr) s h =
      elim (Option-cases (env.fetch_block_number s.tick rpc_url)) [
        | inl down ↦ rw down h
        | inr (to_block, up) ↦ rw up (
            range-Holds chain rpc_url bank_addr
              (scan_from (cursor_now env chain (later s)) to_block) to_block (later (later s)) h)
      ]

  chains-Holds : (urls : Dict Bytes) (s : State) → Holds s → Holds (index_chains env urls s)
  unfolding index_chains
  chains-Holds [] s h = h
  chains-Holds ((chain, rpc_url) ∷ urls) s h =
      chains-Holds urls _ (chain-Holds chain rpc_url (get chain env.contract_addresses) s h)

  pub round-Holds : (s : State) → Holds s → Holds (poll_round env s)
  unfolding poll_round
  round-Holds s h = chains-Holds env.rpc_urls (record s { block_time_cache = [] }) h
