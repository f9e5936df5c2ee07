-- ===== src/HotPath/Parsing.antt =====
-- The parsing of a log of `HotPathInitiated` in services/treasury/src/hot_path.rs.
use web_3_bank.Prelude.{
  ℕ, ◌^◌, ◌<◌, ◌≡◌, refl, sym, ap, ◌∙◌, some, ◌++◌, Bytes, codes, length, length-append, take,
  arith,
}
use mathlib.Core.List.{append_assoc}
use native.Mathlib.Nat.{mod-eq_of_lt}
use web_3_bank.Eth.Hex.{bytes_to_hex}
use web_3_bank.Eth.Abi.{be_bytes, be_value}
use web_3_bank.Eth.Words.{
  length-be_bytes, be_value-be_bytes, take-length-append, drop-length-append,
}
use web_3_bank.Watcher.Events.{slice}
use web_3_bank.Watcher.Parsing.{
  IsWord, padded, initiated_log, decode_at_least-hex_text, padded-AllBytes, slice-padded,
  value-word, initiated_data, initiated_data-slices,
}
use web_3_bank.HotPath.Polls.{hot_path_event_of, parse_hot_path_event}

-- The high bytes of a word and its last eight.
low_bytes :
    (n : ℕ)
    → (be_bytes 32 n ≡ take 24 (be_bytes 32 n) ++ be_bytes 8 n)
      × (length (take 24 (be_bytes 32 n)) ≡ 24)
unfolding be_bytes
low_bytes n = (refl, refl)

-- The last eight bytes of the word of the destination.
dest_slice :
    (amount dest : ℕ) (id : Bytes) (fee : ℕ)
    → slice 56 8 (initiated_data amount dest id fee) ≡ be_bytes 8 dest
dest_slice amount dest id fee =
    let a = be_bytes 32 amount in
    let high = take 24 (be_bytes 32 dest) in
    let low = be_bytes 8 dest in
    let rest = id ++ be_bytes 32 fee in
    let (split, short) = low_bytes dest in
    let joined : initiated_data amount dest id fee ≡ (a ++ high) ++ (low ++ rest) =
      ap (λ d. a ++ (d ++ rest)) split
      ∙ (ap (λ r. a ++ r) (append_assoc high low rest) ∙ sym (append_assoc a high (low ++ rest))) in
    let far : length (a ++ high) ≡ 56 =
      omega (arith, length-append a high, length-be_bytes 32 amount, short) in
    ap (slice 56 8) joined
    ∙ (ap (take 8) (drop-length-append 56 (a ++ high) (low ++ rest) far)
        ∙ take-length-append 8 low rest (length-be_bytes 8 dest))

-- A log of an initiated transfer, as the contract emits it, is parsed into its event: with addresses
-- of 20 bytes, an event hash of 32, an amount of 256 bits and a destination of 64.
pub parse_hot_path_event-initiated_log :
    (topic sender to id hash block index : Bytes) (amount dest fee chain : ℕ)
    → IsWord 20 sender
    → IsWord 20 to
    → IsWord 32 id
    → amount < 2 ^ 256
    → dest < 2 ^ 64
    → parse_hot_path_event (initiated_log topic sender to amount dest id fee hash block index) chain
      ≡ some (record {
        source_chain_id = chain;
        source_event_hash = hash;
        sender = codes "0x" ++ bytes_to_hex sender;
        recipient = to;
        amount = amount;
        dest_chain_id = dest;
        event_id = id;
      })
unfolding parse_hot_path_event hot_path_event_of
parse_hot_path_event-initiated_log topic sender to id hash block index amount dest fee chain f t i h
      k =
    let value : be_value (be_bytes 8 dest) ≡ dest = be_value-be_bytes 8 dest ∙ mod-eq_of_lt k in
    let bytes = initiated_data amount dest id fee in
    let (fine, (long, (digits, (_, hash_slice)))) = initiated_data-slices amount dest id fee i in
    rw
      (
        decode_at_least-hex_text 32 (padded sender) (padded-AllBytes sender f.1)
            (omega (arith, f.0)),
        decode_at_least-hex_text 32 (padded to) (padded-AllBytes to t.1) (omega (arith, t.0)),
        decode_at_least-hex_text 128 bytes fine (omega (arith, long)),
      )
      (rw
        (
          slice-padded sender f.0,
          slice-padded to t.0,
          hash_slice,
          dest_slice,
          digits,
          value-word amount h,
        )
        (rw value refl))
