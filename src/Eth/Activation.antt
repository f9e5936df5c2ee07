-- ===== src/Eth/Activation.antt =====
-- The RouteReceiver's events, decoded in services/treasury/src/eth/encoding.rs.
use web_3_bank.Prelude.{
  ℕ, ◌+◌, ◌*◌, Option, none, some, List, leb, ◌==◌, if◌then◌else◌, Bytes, length, take, drop,
}
use web_3_bank.Eth.Hex.{decode_hex}
use web_3_bank.Eth.Abi.{be_value}
use web_3_bank.Eth.Csv.{from_utf8, parse_csv}

-- The text at a pointer, of the length that stands there. A pointer or a length with which the source's
-- sums pass 2^64, where they wrap or panic, is too large here.
csv_at : ℕ → ℕ → Bytes → Option (List ℕ)
unfolding from_utf8 parse_csv
csv_at ptr len b =
    if leb (ptr + 32 + len) (length b)
    then elim (from_utf8 (take len (drop (ptr + 32) b))) [
      | none ↦ none
      | some cs ↦ some (parse_csv cs)
    ]
    else none

chains_at : ℕ → Bytes → Option (List ℕ)
unfolding csv_at be_value
chains_at ptr b =
    if leb (ptr + 32) (length b) then csv_at ptr (be_value (take 8 (drop (ptr + 24) b))) b else none

chains_of : Bytes → Option (List ℕ)
unfolding chains_at be_value
chains_of b =
    if leb (6 * 32) (length b) then chains_at (be_value (take 8 (drop (3 * 32 + 24) b))) b else none

-- The set as the list of its numbers.
unfoldable pub decode_active_chains_from_event : Bytes → Option (List ℕ)
unfolding chains_of decode_hex
decode_active_chains_from_event text = elim (decode_hex text) [ none ↦ none | some b ↦ chains_of b ]

unfoldable pub decode_indexed_u64_topic : Bytes → Option ℕ
unfolding be_value decode_hex
decode_indexed_u64_topic topic = elim (decode_hex topic) [
  | none ↦ none
  | some b ↦ if length b == 32 then some (be_value (drop 24 b)) else none
]
