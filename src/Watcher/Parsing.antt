-- ===== src/Watcher/Parsing.antt =====
-- The logs that the Bank contract emits, as the events' ABI lays them out, and their parsing in
-- services/treasury/src/watcher.rs.
use web_3_bank.Prelude.{
  ℕ, ◌^◌, ◌<◌, ◌≤◌, ◌≡◌, refl, sym, ap, ◌∙◌, some, [], ◌∷◌, ◌++◌, Bytes, codes, length,
  length-append, take, drop, replicate, All-append, arith, leb, true,
}
use mathlib.Core.List.{append_assoc}
use native.Mathlib.Nat.{mod-eq_of_lt}
use web_3_bank.Eth.Hex.{AllBytes, bytes_to_hex, decode_hex, decode_hex-bytes_to_hex}
use web_3_bank.Eth.Abi.{be_bytes, be_value}
use web_3_bank.Eth.Words.{
  length-be_bytes, be_bytes-AllBytes, be_value-be_bytes, take-length-append, drop-length-append,
  take-all,
}
use web_3_bank.Watcher.Events.{
  RpcLog, decode_at_least, slice, initiated_of, parse_initiated_event, released_of,
  parse_released_event,
}

-- A value of a log: `0x` and the bytes.
abbrev pub hex_text : Bytes → Bytes
hex_text bs = codes "0x" ++ bytes_to_hex bs

-- An address as a topic, padded on the left to 32 bytes.
abbrev pub padded : Bytes → Bytes
padded address = replicate 12 0 ++ address

-- Words of the right size: an address of 20 bytes, a word of 32.
abbrev pub IsWord : ℕ → Bytes → Type 0
IsWord w bs = (length bs ≡ w) × AllBytes bs

-- `event HotPathReleased(address indexed to, uint256 amount, bytes32 indexed sourceEventHash)`
abbrev pub released_log : Bytes → Bytes → ℕ → Bytes → Bytes → Bytes → Bytes → RpcLog
released_log topic to amount id hash block index = record {
  topics = topic ∷ hex_text (padded to) ∷ hex_text id ∷ [];
  payload = hex_text (be_bytes 32 amount);
  transaction_hash = hash;
  block_number = block;
  log_index = index;
}

-- `event HotPathInitiated(address indexed sender, address indexed to, uint256 amount,
-- uint256 destinationChainId, bytes32 eventHash, uint256 fee)`
abbrev pub initiated_log :
    Bytes → Bytes → Bytes → ℕ → ℕ → Bytes → ℕ → Bytes → Bytes → Bytes → RpcLog
initiated_log topic sender to amount dest id fee hash block index = record {
  topics = topic ∷ hex_text (padded sender) ∷ hex_text (padded to) ∷ [];
  payload = hex_text (be_bytes 32 amount ++ (be_bytes 32 dest ++ (id ++ be_bytes 32 fee)));
  transaction_hash = hash;
  block_number = block;
  log_index = index;
}

pub decode_at_least-hex_text :
    (n : ℕ) (bs : Bytes)
    → AllBytes bs
    → n ≤ length bs
    → decode_at_least n (some (hex_text bs)) ≡ some bs
unfolding decode_at_least
decode_at_least-hex_text n bs h k =
    let e : decode_hex (hex_text bs) ≡ some bs = (decode_hex-bytes_to_hex bs h).1 in
    let long : leb n (length bs) ≡ true = ground arith in rw (e, decode_at_least) (rw long refl)

pub padded-AllBytes : (address : Bytes) → AllBytes address → AllBytes (padded address)
padded-AllBytes address h = All-append (λ b. b < 256) (replicate 12 0) address (omega arith) h

pub slice-padded : (address : Bytes) → length address ≡ 20 → slice 12 20 (padded address) ≡ address
slice-padded address h = take-all 20 address h

pub value-word : (n : ℕ) → n < 2 ^ 256 → be_value (be_bytes 32 n) ≡ n
value-word n h = be_value-be_bytes 32 n ∙ mod-eq_of_lt h

-- A log of a release, as the contract emits it, is parsed into its event: with a recipient of 20
-- bytes, a transfer id of 32 and an amount of 256 bits.
parse_released_event-released_log :
    (topic to id hash block index : Bytes) (amount chain : ℕ)
    → IsWord 20 to
    → IsWord 32 id
    → amount < 2 ^ 256
    → parse_released_event (released_log topic to amount id hash block index) chain
      ≡ some (record {
        dest_chain_id = chain;
        dest_tx_hash = hash;
        transfer_id = id;
        recipient = to;
        amount = amount;
      })
unfolding parse_released_event released_of
parse_released_event-released_log topic to id hash block index amount chain t i h =
    let amount_bytes = be_bytes 32 amount in
    let recipient = slice-padded to t.0 in
    let word = take-all 32 id i.0 in
    let digits = take-all 32 amount_bytes (length-be_bytes 32 amount) in
    let value = value-word amount h in
    rw
      (
        decode_at_least-hex_text 32 (padded to) (padded-AllBytes to t.1) (omega (arith, t.0)),
        decode_at_least-hex_text 32 id i.1 (omega (arith, i.0)),
        decode_at_least-hex_text 32 (be_bytes 32 amount) (be_bytes-AllBytes 32 amount)
            (omega (arith, length-be_bytes 32 amount)),
      )
      (rw (recipient, word, digits, value) refl)

-- The data of `HotPathInitiated`.
abbrev pub initiated_data : ℕ → ℕ → Bytes → ℕ → Bytes
initiated_data amount dest id fee =
    be_bytes 32 amount ++ (be_bytes 32 dest ++ (id ++ be_bytes 32 fee))

-- Its bytes, its length and its words.
pub initiated_data-slices :
    (amount dest : ℕ) (id : Bytes) (fee : ℕ)
    → IsWord 32 id
    → AllBytes (initiated_data amount dest id fee)
      × ((length (initiated_data amount dest id fee) ≡ 128)
          × ((slice 0 32 (initiated_data amount dest id fee) ≡ be_bytes 32 amount)
              × ((slice 32 32 (initiated_data amount dest id fee) ≡ be_bytes 32 dest)
                  × (slice 64 32 (initiated_data amount dest id fee) ≡ id))))
initiated_data-slices amount dest id fee i =
    let a = be_bytes 32 amount in
    let d = be_bytes 32 dest in
    let f = be_bytes 32 fee in
    let two_words : length (a ++ d) ≡ 64 =
      omega (arith, length-append a d, length-be_bytes 32 amount, length-be_bytes 32 dest) in
    let long : length (a ++ (d ++ (id ++ f))) ≡ 128 = omega (
      arith,
      length-append a (d ++ (id ++ f)),
      length-append d (id ++ f),
      length-append id f,
      length-be_bytes 32 amount,
      length-be_bytes 32 dest,
      length-be_bytes 32 fee,
      i.0,
    ) in
    let fine : AllBytes (a ++ (d ++ (id ++ f))) =
      All-append (λ b. b < 256) a (d ++ (id ++ f)) (be_bytes-AllBytes 32 amount)
        (All-append (λ b. b < 256) d (id ++ f) (be_bytes-AllBytes 32 dest)
          (All-append (λ b. b < 256) id f i.1 (be_bytes-AllBytes 32 fee))) in
    (
      fine,
      (
        long,
        (
          take-length-append 32 a (d ++ (id ++ f)) (length-be_bytes 32 amount),
          (
            ap (take 32) (drop-length-append 32 a (d ++ (id ++ f)) (length-be_bytes 32 amount))
                ∙ take-length-append 32 d (id ++ f) (length-be_bytes 32 dest),
            ap (λ b. take 32 (drop 64 b)) (sym (append_assoc a d (id ++ f)))
                ∙ (ap (take 32) (drop-length-append 64 (a ++ d) (id ++ f) two_words)
                    ∙ take-length-append 32 id f i.0),
          ),
        ),
      ),
    )

-- A log of an initiated transfer, as the contract emits it, is parsed into its event hash and its
-- event: with a recipient of 20 bytes, an event hash of 32 and an amount of 256 bits.
parse_initiated_event-initiated_log :
    (topic sender to id hash block index : Bytes) (amount dest fee chain : ℕ)
    → IsWord 20 to
    → IsWord 32 id
    → amount < 2 ^ 256
    → parse_initiated_event
        (initiated_log topic sender to amount dest id fee hash block index)
        chain
      ≡ some (
        id,
        record { source_chain_id = chain; source_tx_hash = hash; recipient = to; amount = amount },
      )
unfolding parse_initiated_event initiated_of
parse_initiated_event-initiated_log topic sender to id hash block index amount dest fee chain t i
      h =
    let (fine, (long, (digits, (_, hash_slice)))) = initiated_data-slices amount dest id fee i in
    rw
      (
        decode_at_least-hex_text 32 (padded to) (padded-AllBytes to t.1) (omega (arith, t.0)),
        decode_at_least-hex_text 128 (initiated_data amount dest id fee) fine (omega (arith, long)),
      )
      (rw (slice-padded to t.0, hash_slice, digits, value-word amount h) refl)
