-- ===== src/Eth/Abi.antt =====
-- Call data for the Bank contract, from services/treasury/src/domain/abi.rs.
use web_3_bank.Prelude.{
  ℕ, zero, suc, ◌+◌, ◌-◌, ◌*◌, ◌/◌, ◌%◌, ◌^◌, [], ◌∷◌, ◌++◌, ◌==◌, if◌then◌else◌, Bytes, length,
  replicate,
}

-- `to_be_bytes`: the last `w` base-256 digits.
unfoldable pub be_bytes : ℕ → ℕ → Bytes
be_bytes zero n = []
be_bytes (suc w) n = (n / 256 ^ w) % 256 ∷ be_bytes w n

-- `from_be_bytes`
unfoldable pub be_value : Bytes → ℕ
be_value [] = 0
be_value (b ∷ bs) = b * 256 ^ length bs + be_value bs

unfoldable pub encode_release_hot_path : Bytes → Bytes → ℕ → Bytes → Bytes
unfolding be_bytes
encode_release_hot_path selector recipient amount event_id =
    selector ++ (replicate 12 0 ++ (recipient ++ (be_bytes 32 amount ++ event_id)))

unfoldable pub encode_rebalance : Bytes → ℕ → ℕ → Bytes
unfolding be_bytes
encode_rebalance selector dest_chain_id amount =
    selector ++ (replicate 24 0 ++ (be_bytes 8 dest_chain_id ++ be_bytes 32 amount))

unfoldable pub trim_zeros : Bytes → Bytes
trim_zeros [] = []
trim_zeros (b ∷ bs) = let rest = trim_zeros bs in if b == 0 then rest else b ∷ bs

unfoldable pub u256_to_trimmed_be : ℕ → Bytes
unfolding trim_zeros be_bytes
u256_to_trimmed_be n = trim_zeros (be_bytes 32 n)

unfoldable pub encode_bridge_reserve : Bytes → ℕ → ℕ → Bytes
unfolding be_bytes
encode_bridge_reserve selector dest_chain_id amount =
    selector ++ (replicate 24 0 ++ (be_bytes 8 dest_chain_id ++ be_bytes 32 amount))

-- The zeros that fill a text of `n` bytes up to a multiple of 32.
unfoldable pub pad_len : ℕ → ℕ
pad_len n = if n % 32 == 0 then 0 else 32 - n % 32

-- A `u64` as a word.
unfoldable pub write_u256 : ℕ → Bytes
unfolding be_bytes
write_u256 n = replicate 24 0 ++ be_bytes 8 n

-- A tail: the length, the bytes, the padding.
unfoldable pub write_bytes : Bytes → Bytes
unfolding write_u256 pad_len
write_bytes b = write_u256 (length b) ++ (b ++ replicate (pad_len (length b)) 0)

unfoldable pub encode_bridge_in : Bytes → Bytes → Bytes → Bytes
unfolding write_u256 write_bytes pad_len
encode_bridge_in selector message attestation =
    let att_offset = 64 + 32 + length message + pad_len (length message) in
    selector
    ++ (write_u256 64
        ++ (write_u256 att_offset ++ (write_bytes message ++ write_bytes attestation)))
