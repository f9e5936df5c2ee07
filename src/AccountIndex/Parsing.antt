-- ===== src/AccountIndex/Parsing.antt =====
-- The parsing of the bank's and the token's logs in services/treasury/src/account_index.rs.
use web_3_bank.Prelude.{
  ℕ, Bool, Option, none, some, ◌++◌, leb, ◌||◌, length, get_elem?, if◌then◌else◌, Bytes, codes,
  ◌===◌,
}
use web_3_bank.Eth.Hex.{bytes_to_hex}
use web_3_bank.Eth.Abi.{be_value}
use web_3_bank.Watcher.Events.{RpcLog, decode_at_least, slice}
use web_3_bank.Decommission.Ops.{to_lowercase}
use web_3_bank.AccountIndex.Events.{
  EventKind, deposited, withdrawn, hot_path_initiated, hot_path_released, AccountEventRow,
}

-- `eq_ignore_ascii_case`
unfoldable pub eq_ignore_case : Bytes → Bytes → Bool
unfolding to_lowercase
eq_ignore_case a b = to_lowercase a === to_lowercase b

unfoldable pub topic_to_address : Bytes → Option Bytes
unfolding decode_at_least bytes_to_hex
topic_to_address topic = elim (decode_at_least 32 (some topic)) [
  | none ↦ none
  | some raw ↦ some (codes "0x" ++ bytes_to_hex (slice 12 20 raw))
]

-- The address of a topic, if the log has one.
unfoldable pub address_at : ℕ → RpcLog → Option Bytes
unfolding topic_to_address
address_at i log = elim (get_elem? log.topics i) [ none ↦ none | some t ↦ topic_to_address t ]

-- Where and when a log was found.
pub record Place : Type 0 where
  pub chain_id : ℕ
  pub block_number : ℕ
  pub log_index : ℕ
  pub block_time_unix : Option ℕ

abbrev pub row_of :
    RpcLog
    → Place
    → EventKind
    → Option Bytes
    → Option Bytes
    → Bytes
    → Option Bytes
    → AccountEventRow
row_of log p kind from to bytes correlation = record {
  chain_id = p.chain_id;
  tx_hash = log.transaction_hash;
  log_index = p.log_index;
  event_kind = kind;
  address_from = from;
  address_to = to;
  amount_wei = be_value (slice 0 32 bytes);
  block_number = p.block_number;
  block_time_unix = p.block_time_unix;
  correlation = correlation;
}

-- With the user's address and the data.
unfoldable pub deposited_of : RpcLog → Place → Option Bytes → Option Bytes → Option AccountEventRow
deposited_of log p none bytes = none
deposited_of log p (some user) none = none
deposited_of log p (some user) (some bytes) =
    some (row_of log p deposited none (some user) bytes none)

unfoldable pub parse_deposited : RpcLog → Place → Option AccountEventRow
unfolding deposited_of address_at decode_at_least
parse_deposited log p =
    deposited_of log p (address_at 1 log) (decode_at_least 32 (some log.payload))

unfoldable pub withdrawn_of : RpcLog → Place → Option Bytes → Option Bytes → Option AccountEventRow
withdrawn_of log p none bytes = none
withdrawn_of log p (some user) none = none
withdrawn_of log p (some user) (some bytes) =
    some (row_of log p withdrawn (some user) none bytes none)

unfoldable pub parse_withdrawn : RpcLog → Place → Option AccountEventRow
unfolding withdrawn_of address_at decode_at_least
parse_withdrawn log p =
    withdrawn_of log p (address_at 1 log) (decode_at_least 32 (some log.payload))

unfoldable pub hot_path_initiated_of :
    RpcLog → Place → Option Bytes → Option Bytes → Option Bytes → Option AccountEventRow
unfolding bytes_to_hex
hot_path_initiated_of log p none to bytes = none
hot_path_initiated_of log p (some from) none bytes = none
hot_path_initiated_of log p (some from) (some to) none = none
hot_path_initiated_of log p (some from) (some to) (some bytes) = some (
    row_of log p hot_path_initiated (some from) (some to) bytes
      (some (codes "0x" ++ bytes_to_hex (slice 64 32 bytes))))

unfoldable pub parse_hot_path_initiated : RpcLog → Place → Option AccountEventRow
unfolding hot_path_initiated_of address_at decode_at_least
parse_hot_path_initiated log p =
    if leb 3 (length log.topics)
    then hot_path_initiated_of log p (address_at 1 log) (address_at 2 log)
        (decode_at_least 96 (some log.payload))
    else none

unfoldable pub hot_path_released_of :
    RpcLog → Place → Option Bytes → Option Bytes → Option AccountEventRow
hot_path_released_of log p none bytes = none
hot_path_released_of log p (some to) none = none
hot_path_released_of log p (some to) (some bytes) =
    some (row_of log p hot_path_released none (some to) bytes (get_elem? log.topics 2))

unfoldable pub parse_hot_path_released : RpcLog → Place → Option AccountEventRow
unfolding hot_path_released_of address_at decode_at_least
parse_hot_path_released log p =
    if leb 3 (length log.topics)
    then hot_path_released_of log p (address_at 1 log) (decode_at_least 32 (some log.payload))
    else none

-- The topics of the four events of the bank.
pub record BankEventTopics : Type 0 where
  pub deposited_topic : Bytes
  pub withdrawn_topic : Bytes
  pub hot_path_initiated_topic : Bytes
  pub hot_path_released_topic : Bytes

-- The tests of `parse_bank_log` on the first topic.
unfoldable pub bank_row : BankEventTopics → RpcLog → Bytes → Place → Option AccountEventRow
unfolding parse_deposited parse_withdrawn parse_hot_path_initiated parse_hot_path_released
    eq_ignore_case
bank_row topics log topic p =
    if eq_ignore_case topic topics.deposited_topic
    then parse_deposited log p
    else (if eq_ignore_case topic topics.withdrawn_topic
        then parse_withdrawn log p
        else (if eq_ignore_case topic topics.hot_path_initiated_topic
            then parse_hot_path_initiated log p
            else (if eq_ignore_case topic topics.hot_path_released_topic
                then parse_hot_path_released log p
                else none)))

-- The addresses and the data of a transfer of the token; the bank's own are left out.
unfoldable pub transfer_parts :
    Bytes → Option Bytes → Option Bytes → Option Bytes → Option (Bytes × Bytes × Bytes)
unfolding eq_ignore_case
transfer_parts bank none to bytes = none
transfer_parts bank (some from) none bytes = none
transfer_parts bank (some from) (some to) none = none
transfer_parts bank (some from) (some to) (some bytes) =
    if eq_ignore_case from bank || eq_ignore_case to bank then none else some (from, to, bytes)
