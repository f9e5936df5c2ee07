-- ===== src/Watcher/Events.antt =====
-- The events that the watcher reads (services/treasury/src/domain/events.rs), the logs they are
-- parsed from, the cache of initiated events, and the alerts of domain/status.rs.
use web_3_bank.Prelude.{
  ℕ, ◌&&◌, Option, none, some, List, [], ◌∷◌, ◌==◌, leb, take, drop, length, get_elem?,
  if◌then◌else◌, Bytes, codes, ◌===◌,
}
use web_3_bank.Eth.Hex.{decode_hex}
use web_3_bank.Eth.Abi.{be_value}

pub record InitiatedEvent : Type 0 where
  pub source_chain_id : ℕ
  pub source_tx_hash : Bytes
  pub recipient : Bytes
  pub amount : ℕ

pub record ReleasedEvent : Type 0 where
  pub dest_chain_id : ℕ
  pub dest_tx_hash : Bytes
  pub transfer_id : Bytes
  pub recipient : Bytes
  pub amount : ℕ

pub data AlertType : Type 0 where
  verified mismatch source_not_found : AlertType

-- `AlertType::as_str`
unfoldable pub alert_text : AlertType → Bytes
alert_text verified = codes "Verified"
alert_text mismatch = codes "Mismatch"
alert_text source_not_found = codes "SourceNotFound"

unfoldable pub verify_against : ReleasedEvent → InitiatedEvent → AlertType
verify_against release initiated =
    if (release.amount == initiated.amount) && (release.recipient === initiated.recipient)
    then verified
    else mismatch

-- `HashMap<B256, InitiatedEvent>`
abbrev pub Cache : Type 0
Cache = List (Bytes × InitiatedEvent)

unfoldable pub cache_get : Bytes → Cache → Option InitiatedEvent
cache_get id [] = none
cache_get id ((k, e) ∷ cache) = if k === id then some e else cache_get id cache

unfoldable pub cache_insert : Bytes → InitiatedEvent → Cache → Cache
cache_insert id e [] = (id, e) ∷ []
cache_insert id e ((k, e') ∷ cache) =
    if k === id then (k, e) ∷ cache else (k, e') ∷ cache_insert id e cache

-- `eth::RpcLog`; `payload` is its `data`.
pub record RpcLog : Type 0 where
  pub block_number : Bytes
  pub log_index : Bytes
  pub topics : List Bytes
  pub payload : Bytes
  pub transaction_hash : Bytes

-- `decode_hex(..)?`, then `None` if it is shorter than `n` bytes.
unfoldable pub decode_at_least : ℕ → Option Bytes → Option Bytes
unfolding decode_hex
decode_at_least n none = none
decode_at_least n (some text) = elim (decode_hex text) [
  | none ↦ none
  | some b ↦ if leb n (length b) then some b else none
]

-- `&b[i..i + n]`
abbrev pub slice : ℕ → ℕ → Bytes → Bytes
slice i n b = take n (drop i b)

unfoldable pub initiated_of :
    RpcLog → ℕ → Option Bytes → Option Bytes → Option (Bytes × InitiatedEvent)
unfolding be_value
initiated_of log chain none bytes = none
initiated_of log chain (some to) none = none
initiated_of log chain (some to) (some bytes) = some (
  slice 64 32 bytes,
  record {
    source_chain_id = chain;
    source_tx_hash = log.transaction_hash;
    recipient = slice 12 20 to;
    amount = be_value (slice 0 32 bytes);
  },
)

unfoldable pub parse_initiated_event : RpcLog → ℕ → Option (Bytes × InitiatedEvent)
unfolding decode_at_least initiated_of
parse_initiated_event log chain =
    if leb 3 (length log.topics)
    then initiated_of log chain (decode_at_least 32 (get_elem? log.topics 2))
        (decode_at_least 128 (some log.payload))
    else none

unfoldable pub released_of :
    RpcLog → ℕ → Option Bytes → Option Bytes → Option Bytes → Option ReleasedEvent
unfolding be_value
released_of log chain none id bytes = none
released_of log chain (some to) none bytes = none
released_of log chain (some to) (some id) none = none
released_of log chain (some to) (some id) (some bytes) = some (record {
  dest_chain_id = chain;
  dest_tx_hash = log.transaction_hash;
  transfer_id = slice 0 32 id;
  recipient = slice 12 20 to;
  amount = be_value (slice 0 32 bytes);
})

unfoldable pub parse_released_event : RpcLog → ℕ → Option ReleasedEvent
unfolding decode_at_least released_of
parse_released_event log chain =
    if leb 3 (length log.topics)
    then released_of log chain (decode_at_least 32 (get_elem? log.topics 1))
        (decode_at_least 32 (get_elem? log.topics 2)) (decode_at_least 32 (some log.payload))
    else none

store : Option (Bytes × InitiatedEvent) → Cache → Cache
unfolding cache_insert
store none cache = cache
store (some (id, e)) cache = cache_insert id e cache

-- The loop of `poll_initiated_loop` over the logs of one chain.
unfoldable pub cache_initiated : ℕ → List RpcLog → Cache → Cache
unfolding store parse_initiated_event
cache_initiated chain [] cache = cache
cache_initiated chain (log ∷ logs) cache =
    cache_initiated chain logs (store (parse_initiated_event log chain) cache)
