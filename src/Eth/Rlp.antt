-- ===== src/Eth/Rlp.antt =====
-- The RLP of services/treasury/src/eth/encoding.rs, and the payload of a transaction in
-- services/treasury/src/eth/tx.rs.
use web_3_bank.Prelude.{
  ℕ, ◌+◌, Bool, false, Option, none, some, List, [], ◌∷◌, ◌++◌, ltb, leb, ◌==◌, if◌then◌else◌,
  Bytes, codes, length,
}
use web_3_bank.Eth.Hex.{bytes_to_hex}
use web_3_bank.Eth.Abi.{be_bytes, trim_zeros}

-- `to_be_bytes` of a `u64` from its first byte that is not 0.
unfoldable pub trimmed : ℕ → Bytes
unfolding be_bytes trim_zeros
trimmed n = trim_zeros (be_bytes 8 n)

-- The first byte and the length; `short` starts the bytes of up to 55, `long` those above.
unfoldable pub header : ℕ → ℕ → ℕ → Bytes
unfolding trimmed
header short long n = if leb n 55 then (short + n) ∷ [] else (long + length (trimmed n)) ∷ trimmed n

abbrev pub is_single : Bytes → Bool
is_single [] = false
is_single (b ∷ []) = ltb b 0x80
is_single (b ∷ c ∷ bs) = false

unfoldable pub rlp_encode_bytes : Bytes → Bytes
unfolding header
rlp_encode_bytes b = if is_single b then b else header 0x80 0xb7 (length b) ++ b

unfoldable pub rlp_encode_uint : ℕ → Bytes
unfolding rlp_encode_bytes trimmed
rlp_encode_uint n = if n == 0 then 0x80 ∷ [] else rlp_encode_bytes (trimmed n)

abbrev pub joined : List Bytes → Bytes
joined [] = []
joined (i ∷ items) = i ++ joined items

unfoldable pub rlp_encode_list : List Bytes → Bytes
unfolding header
rlp_encode_list items = header 0xc0 0xf7 (length (joined items)) ++ joined items

-- The parameters of a transaction.
pub record Payload : Type 0 where
  pub chain_id : ℕ
  pub nonce : ℕ
  pub max_priority_fee : ℕ
  pub max_fee : ℕ
  pub gas_limit : ℕ
  pub to : Bytes
  pub value : Bytes
  pub call_data : Bytes

-- The items of a payload, with those that follow.
abbrev pub tx_items : Payload → List Bytes → List Bytes
tx_items p more =
    rlp_encode_uint p.chain_id
    ∷ rlp_encode_uint p.nonce
    ∷ rlp_encode_uint p.max_priority_fee
    ∷ rlp_encode_uint p.max_fee
    ∷ rlp_encode_uint p.gas_limit
    ∷ rlp_encode_bytes p.to
    ∷ rlp_encode_bytes p.value
    ∷ rlp_encode_bytes p.call_data
    ∷ rlp_encode_list []
    ∷ more

unfoldable pub build_tx_rlp : Payload → Bytes
unfolding rlp_encode_list rlp_encode_uint rlp_encode_bytes
build_tx_rlp p = rlp_encode_list (tx_items p [])

-- The key's signature of a hash: the bytes of `r` and `s`, and the recovery number.
pub record Signer : Type 0 where
  pub keccak256 : Bytes → Bytes
  pub sign_prehash : Bytes → Option (Bytes × (Bytes × ℕ))

-- A signature that fails is `TxError::Signing`.
unfoldable pub sign_eip1559_tx : Signer → Payload → Option Bytes
unfolding build_tx_rlp rlp_encode_list rlp_encode_uint rlp_encode_bytes bytes_to_hex
sign_eip1559_tx signer p = elim (signer.sign_prehash (signer.keccak256 (0x02 ∷ build_tx_rlp p))) [
  | none ↦ none
  | some (r, (s, v)) ↦
      let items = tx_items p (rlp_encode_uint v ∷ rlp_encode_bytes r ∷ rlp_encode_bytes s ∷ []) in
      some (codes "0x" ++ bytes_to_hex (0x02 ∷ rlp_encode_list items))
]
