-- ===== src/AccountIndex/Ingest.antt =====
-- The state of an `AccountIndexer`, the parsing of a log and the keeping of its row,
-- services/treasury/src/account_index.rs.
use web_3_bank.Prelude.{
  ℕ, ◌+◌, ◌%◌, ◌^◌, Bool, true, false, not, ◌&&◌, ◌||◌, Option, none, some, List, [], ◌∷◌, ◌++◌,
  ◌==◌, leb, length, get_elem?, if◌then◌else◌, Bytes, codes, starts_with,
}
use web_3_bank.Prelude.Dict.{Dict}
use web_3_bank.Eth.Quantity.{parse_hex_u64}
use web_3_bank.Watcher.Events.{RpcLog, decode_at_least}
use web_3_bank.AccountIndex.Events.{
  transfer, AccountEventRow, UpsertEventResult, inserted, already_exists, upsert_event,
  is_deposited, user_has_deposit,
}
use web_3_bank.AccountIndex.Parsing.{
  address_at, Place, row_of, BankEventTopics, bank_row, transfer_parts,
}

-- What an `AccountIndexer` is built with, and the answers of the network, of the user service's
-- address and of the database.
pub record Env : Type 0 where
  pub fetch_block_number : ℕ → Bytes → Option ℕ
  pub fetch_logs_any : ℕ → Bytes → Bytes → ℕ → ℕ → List RpcLog
  pub fetch_logs : ℕ → Bytes → Bytes → Bytes → ℕ → ℕ → List RpcLog
  pub fetch_address_view : ℕ → Bytes → Bytes → Bytes → Option Bytes
  pub fetch_block_timestamp : ℕ → Bytes → ℕ → Option ℕ
  pub connect : ℕ → Bytes → Bool
  pub database_up : ℕ → Bool
  pub rpc_urls : Dict Bytes
  pub contract_addresses : Dict Bytes
  pub index_from_blocks : Option (Dict ℕ)
  pub user_endpoint : Option Bytes
  pub topics : BankEventTopics
  pub transfer_topic : Bytes
  pub sync_usd_selector : Bytes

-- A request that the user service was sent: the user and the chain.
pub record Push : Type 0 where
  pub user : Bytes
  pub chain_id : ℕ

-- The tables, the two caches, the time, and the requests sent, the last first.
pub record State : Type 0 where
  pub tick : ℕ
  pub events : List AccountEventRow
  pub cursors : Dict ℕ
  pub sync_usd_cache : Dict Bytes
  pub block_time_cache : List ((ℕ × ℕ) × ℕ)
  pub pushes : List Push

abbrev pub later : State → State
later s = record s { tick = s.tick + 1 }

unfoldable pub cached_time : ℕ → ℕ → List ((ℕ × ℕ) × ℕ) → Option ℕ
cached_time chain block [] = none
cached_time chain block (((c, b), t) ∷ cache) =
    if (c == chain) && (b == block) then some t else cached_time chain block cache

abbrev keep_time : ℕ → ℕ → Option ℕ → State → State
keep_time chain block none s = s
keep_time chain block (some t) s = record s {
  block_time_cache = ((chain, block), t) ∷ s.block_time_cache;
}

unfoldable pub block_time_unix : Env → ℕ → Bytes → ℕ → State → Option ℕ × State
unfolding cached_time
block_time_unix env chain rpc_url block s = elim (cached_time chain block s.block_time_cache) [
  | some t ↦ (some t, s)
  | none ↦
      let found = env.fetch_block_timestamp s.tick rpc_url block in
      (found, keep_time chain block found (later s))
]

-- `(.. as i32)`, as bits.
abbrev place : ℕ → ℕ → ℕ → Option ℕ → Place
place chain block index time = record {
  chain_id = chain;
  block_number = block;
  log_index = index % 2 ^ 32;
  block_time_unix = time;
}

-- With the first topic, the block and the index.
unfoldable pub parse_bank_parts :
    Env
    → RpcLog
    → ℕ
    → Bytes
    → Option Bytes
    → Option ℕ
    → Option ℕ
    → State
    → Option AccountEventRow × State
unfolding bank_row block_time_unix
parse_bank_parts env log chain rpc_url none block index s = (none, s)
parse_bank_parts env log chain rpc_url (some topic) none index s = (none, s)
parse_bank_parts env log chain rpc_url (some topic) (some block) none s = (none, s)
parse_bank_parts env log chain rpc_url (some topic) (some block) (some index) s =
    let (time, s') = block_time_unix env chain rpc_url block s in
    (bank_row env.topics log topic (place chain block index time), s')

unfoldable pub parse_bank_log : Env → RpcLog → ℕ → Bytes → State → Option AccountEventRow × State
unfolding parse_bank_parts parse_hex_u64
parse_bank_log env log chain rpc_url s =
    parse_bank_parts env log chain rpc_url (get_elem? log.topics 0) (parse_hex_u64 log.block_number)
      (parse_hex_u64 log.log_index) s

-- With the addresses and the data, the block and the index.
unfoldable pub parse_transfer_parts :
    Env
    → RpcLog
    → ℕ
    → Bytes
    → Option (Bytes × Bytes × Bytes)
    → Option ℕ
    → Option ℕ
    → State
    → Option AccountEventRow × State
unfolding block_time_unix
parse_transfer_parts env log chain rpc_url none block index s = (none, s)
parse_transfer_parts env log chain rpc_url (some parts) none index s = (none, s)
parse_transfer_parts env log chain rpc_url (some parts) (some block) none s = (none, s)
parse_transfer_parts env log chain rpc_url (some (from, to, bytes)) (some block) (some index) s =
    let (time, s') = block_time_unix env chain rpc_url block s in
    (some (row_of log (place chain block index time) transfer (some from) (some to) bytes none), s')

unfoldable pub parse_transfer_log :
    Env → RpcLog → ℕ → Bytes → Bytes → State → Option AccountEventRow × State
unfolding parse_transfer_parts transfer_parts address_at decode_at_least parse_hex_u64
parse_transfer_log env log chain rpc_url bank_addr s =
    if leb 3 (length log.topics)
    then parse_transfer_parts env log chain rpc_url
        (transfer_parts bank_addr (address_at 1 log) (address_at 2 log)
          (decode_at_least 32 (some log.payload)))
        (parse_hex_u64 log.block_number) (parse_hex_u64 log.log_index) s
    else (none, s)

-- The address of the user service, with a scheme.
unfoldable pub uri_of : Bytes → Bytes
unfolding starts_with
uri_of endpoint =
    if starts_with (codes "http://") endpoint || starts_with (codes "https://") endpoint
    then endpoint
    else codes "http://" ++ endpoint

-- What the service answers is only logged.
unfoldable pub push_home_chain : Env → Bytes → ℕ → State → State
unfolding uri_of
push_home_chain env user chain s = elim env.user_endpoint [
  | none ↦ s
  | some endpoint ↦
      if env.connect s.tick (uri_of endpoint)
      then record s {
        tick = s.tick + 1;
        pushes = record { user = user; chain_id = chain } ∷ s.pushes;
      }
      else later s
]

abbrev pub is_inserted : UpsertEventResult → Bool
is_inserted inserted = true
is_inserted already_exists = false

unfoldable pub should_push_home_chain : UpsertEventResult → Bool → Bool
should_push_home_chain upsert is_first_deposit = is_inserted upsert && is_first_deposit

-- A failed query reads as `false`.
abbrev pub has_deposit_now : Env → Bytes → State → Bool
has_deposit_now env user s =
    if env.database_up s.tick then user_has_deposit user s.events else false

-- A failed statement reads as a row that exists.
abbrev pub upsert_now : Env → AccountEventRow → State → UpsertEventResult × List AccountEventRow
upsert_now env row s =
    if env.database_up s.tick then upsert_event row s.events else (already_exists, s.events)

-- `ingest_row`, with the user of a deposit.
unfoldable pub ingest_for : Env → AccountEventRow → Option Bytes → State → State
unfolding user_has_deposit upsert_event push_home_chain should_push_home_chain
ingest_for env row none s = record (later s) { events = (upsert_now env row s).1 }
ingest_for env row (some user) s =
    let first = not (has_deposit_now env user s) in
    let (upsert, events) = upsert_now env row (later s) in
    let s' = record (later (later s)) { events = events } in
    if should_push_home_chain upsert first then push_home_chain env user row.chain_id s' else s'

unfoldable pub ingest_row : Env → AccountEventRow → State → State
unfolding ingest_for
ingest_row env row s =
    ingest_for env row (if is_deposited row.event_kind then row.address_to else none) s
