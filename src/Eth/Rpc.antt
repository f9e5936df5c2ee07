-- ===== src/Eth/Rpc.antt =====
-- The view calls of services/treasury/src/eth/rpc.rs, with `encode_balance_of` of eth/encoding.rs.
-- HTTP and JSON are left out: what a node answers is the text of the `result`, if there is one.
use web_3_bank.Prelude.{
  ℕ, Option, none, some, ◌++◌, ◌==◌, length, replicate, if◌then◌else◌, Bytes, codes,
}
use web_3_bank.Eth.Hex.{bytes_to_hex, decode_hex, strip_0x}
use web_3_bank.Eth.Abi.{be_value}
use web_3_bank.Eth.Quantity.{parse_hex_u64}
use web_3_bank.Watcher.Events.{decode_at_least, slice}

-- The answers of the nodes, each at the time of the call: those of `eth_blockNumber`, and those of
-- `eth_call` for a contract and its call data.
pub record Wire : Type 0 where
  pub eth_block_number : ℕ → Bytes → Option Bytes
  pub eth_call : ℕ → Bytes → Bytes → Bytes → Option Bytes

-- `format!("0x{}", bytes_to_hex(..))`
unfoldable pub hex_call : Bytes → Bytes
unfolding bytes_to_hex
hex_call call_data = codes "0x" ++ bytes_to_hex call_data

unfoldable pub fetch_block_number : Wire → ℕ → Bytes → Option ℕ
unfolding parse_hex_u64
fetch_block_number wire t url = elim (wire.eth_block_number t url) [
  | none ↦ none
  | some hex ↦ parse_hex_u64 hex
]

-- The address in a word.
unfoldable pub word_address : Option Bytes → Option Bytes
unfolding hex_call
word_address none = none
word_address (some word) = some (hex_call (slice 12 20 word))

unfoldable pub fetch_address_view : Wire → ℕ → Bytes → Bytes → Bytes → Option Bytes
unfolding word_address decode_at_least
fetch_address_view wire t url contract selector =
    word_address (decode_at_least 32 (wire.eth_call t url contract (hex_call selector)))

-- The number in a word.
unfoldable pub word_value : Option Bytes → Option ℕ
unfolding be_value
word_value none = none
word_value (some word) = some (be_value (slice 0 32 word))

-- `fetch_pool_depth` and `fetch_reserve_depth` are this call with their selectors.
unfoldable pub fetch_u256_view : Wire → ℕ → Bytes → Bytes → Bytes → Option ℕ
unfolding word_value decode_at_least hex_call
fetch_u256_view wire t url contract selector =
    word_value (decode_at_least 32 (wire.eth_call t url contract (hex_call selector)))

-- The prefix is stripped here and once more by `decode_hex`.
unfoldable pub encode_balance_of : Bytes → Bytes → Option Bytes
unfolding hex_call decode_hex strip_0x
encode_balance_of selector address = elim (decode_hex (strip_0x address)) [
  | none ↦ none
  | some b ↦ if length b == 20 then some (hex_call (selector ++ (replicate 12 0 ++ b))) else none
]

unfoldable pub fetch_balance_of : Wire → ℕ → Bytes → Bytes → Bytes → Bytes → Option ℕ
unfolding encode_balance_of word_value decode_at_least
fetch_balance_of wire t url token user selector = elim (encode_balance_of selector user) [
  | none ↦ none
  | some call_data ↦ word_value (decode_at_least 32 (wire.eth_call t url token call_data))
]
