-- ===== src/AccountIndex/Index.antt =====
-- The polling of an `AccountIndexer`, services/treasury/src/account_index.rs.
use web_3_bank.Prelude.{
  ℕ, zero, suc, ◌+◌, ◌-◌, min, max, Option, none, some, List, [], ◌∷◌, if◌then◌else◌, Bytes,
}
use web_3_bank.Prelude.Dict.{Dict, get, insert}
use web_3_bank.Watcher.Events.{RpcLog}
use web_3_bank.AccountIndex.Events.{AccountEventRow}
use web_3_bank.AccountIndex.Ingest.{
  Env, State, later, parse_bank_log, parse_transfer_log, ingest_row,
}

abbrev pub ingest_parsed : Env → Option AccountEventRow × State → State
ingest_parsed env (none, s) = s
ingest_parsed env (some row, s) = ingest_row env row s

unfoldable pub ingest_bank_logs : Env → ℕ → Bytes → List RpcLog → State → State
unfolding ingest_row parse_bank_log
ingest_bank_logs env chain rpc_url [] s = s
ingest_bank_logs env chain rpc_url (log ∷ logs) s =
    ingest_bank_logs env chain rpc_url logs
      (ingest_parsed env (parse_bank_log env log chain rpc_url s))

unfoldable pub ingest_transfer_logs : Env → ℕ → Bytes → Bytes → List RpcLog → State → State
unfolding ingest_row parse_transfer_log
ingest_transfer_logs env chain rpc_url bank_addr [] s = s
ingest_transfer_logs env chain rpc_url bank_addr (log ∷ logs) s =
    ingest_transfer_logs env chain rpc_url bank_addr logs
      (ingest_parsed env (parse_transfer_log env log chain rpc_url bank_addr s))

abbrev keep_token : ℕ → Option Bytes → State → State
keep_token chain none s = s
keep_token chain (some token) s = record s { sync_usd_cache = insert chain token s.sync_usd_cache }

unfoldable pub resolve_sync_usd : Env → ℕ → Bytes → Bytes → State → Option Bytes × State
resolve_sync_usd env chain rpc_url bank_addr s = elim (get chain s.sync_usd_cache) [
  | some token ↦ (some token, s)
  | none ↦
      let found = env.fetch_address_view s.tick rpc_url bank_addr env.sync_usd_selector in
      (found, keep_token chain found (later s))
]

unfoldable pub max_block_range : ℕ
max_block_range = 2000

-- Where the index of a chain starts.
unfoldable pub start_block : Env → ℕ → ℕ
start_block env chain = elim env.index_from_blocks [
  | none ↦ 0
  | some blocks ↦ elim (get chain blocks) [ none ↦ 0 | some b ↦ b ]
]

-- A failed query reads as no cursor.
unfoldable pub cursor_now : Env → ℕ → State → ℕ
unfolding start_block
cursor_now env chain s = elim (if env.database_up s.tick then get chain s.cursors else none) [
  | none ↦ start_block env chain
  | some last ↦ last
]

unfoldable pub scan_from : ℕ → ℕ → ℕ
unfolding max_block_range
scan_from cursor to_block = max (min cursor to_block) (to_block - max_block_range)

-- The transfers, if the token's address is known.
unfoldable pub index_transfers : Env → ℕ → Bytes → Bytes → ℕ → ℕ → Option Bytes × State → State
unfolding ingest_transfer_logs
index_transfers env chain rpc_url bank_addr from to_block (none, s) = s
index_transfers env chain rpc_url bank_addr from to_block (some token, s) =
    ingest_transfer_logs env chain rpc_url bank_addr
      (env.fetch_logs s.tick rpc_url token env.transfer_topic from to_block) (later s)

-- From the first block of the scan on.
unfoldable pub index_range : Env → ℕ → Bytes → Bytes → ℕ → ℕ → State → State
unfolding ingest_bank_logs index_transfers resolve_sync_usd
index_range env chain rpc_url bank_addr from to_block s =
    let banked =
      ingest_bank_logs env chain rpc_url (env.fetch_logs_any s.tick rpc_url bank_addr from to_block)
        (later s) in
    let s' =
      index_transfers env chain rpc_url bank_addr from to_block
        (resolve_sync_usd env chain rpc_url bank_addr banked) in
    record (later s') {
      cursors =
          if env.database_up s'.tick then insert chain (to_block + 1) s'.cursors else s'.cursors;
    }

-- With the chain's latest block; the scan always starts at or before it.
unfoldable pub index_to : Env → ℕ → Bytes → Bytes → Option ℕ → State → State
unfolding index_range scan_from cursor_now
index_to env chain rpc_url bank_addr none s = s
index_to env chain rpc_url bank_addr (some to_block) s =
    index_range env chain rpc_url bank_addr (scan_from (cursor_now env chain s) to_block) to_block
      (later s)

unfoldable pub index_chain : Env → ℕ → Bytes → Option Bytes → State → State
unfolding index_to
index_chain env chain rpc_url none s = s
index_chain env chain rpc_url (some bank_addr) s =
    index_to env chain rpc_url bank_addr (env.fetch_block_number s.tick rpc_url) (later s)

unfoldable pub index_chains : Env → Dict Bytes → State → State
unfolding index_chain
index_chains env [] s = s
index_chains env ((chain, rpc_url) ∷ urls) s =
    index_chains env urls (index_chain env chain rpc_url (get chain env.contract_addresses) s)

-- A round of `poll_loop`.
unfoldable pub poll_round : Env → State → State
unfolding index_chains
poll_round env s = index_chains env env.rpc_urls (record s { block_time_cache = [] })

-- The loop, for so many rounds.
abbrev pub poll_rounds : ℕ → Env → State → State
poll_rounds zero env s = s
poll_rounds (suc n) env s = poll_rounds n env (poll_round env s)
