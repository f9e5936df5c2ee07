-- ===== src/Eth/Payloads.antt =====
-- The payloads that services/treasury/src/eth/tx.rs signs, read by the rules of RLP.
use web_3_bank.Prelude.{
  ℕ, zero, suc, ==_iff, ◌+◌, ◌^◌, ◌≤◌, ◌<◌, ◌≡◌, refl, ◌&&◌, Bool-cases, inl, inr, Option, none,
  some, List, [], ◌∷◌, ◌++◌, leb, ◌==◌, if◌then◌else◌, Bytes, ◌===◌, All, length, length-append,
  arith,
}
use mathlib.Core.List.{append-nil}
use mathlib.Core.Path.{subst}
use web_3_bank.Eth.Abi.{be_value}
use web_3_bank.Eth.Rlp.{
  trimmed, header, is_single, rlp_encode_bytes, rlp_encode_uint, joined, rlp_encode_list, Payload,
  tx_items, build_tx_rlp,
}
use web_3_bank.Eth.RlpRules.{
  rlp_item, rlp_list, is_minimal, trimmed-minimal, length-trimmed, be_value-trimmed, header-short,
  header-long, header-list, rlp_item-rlp_encode_bytes,
}

rlp_encode_uint-trimmed : (n : ℕ) → rlp_encode_uint n ≡ rlp_encode_bytes (trimmed n)
unfolding rlp_encode_uint
rlp_encode_uint-trimmed n = elim (Bool-cases (n == 0)) [
  | inl none_of ↦ rw (none_of, (==_iff n 0).0 none_of) zero_item
  | inr several ↦ rw several refl
]
  where
    zero_item : 0x80 ∷ [] ≡ rlp_encode_bytes (trimmed 0)
    zero_item = refl

-- Strings in a row, and what follows.
abbrev strings : List Bytes → Bytes → Bytes
strings [] rest = rest
strings (b ∷ bs) rest = rlp_encode_bytes b ++ strings bs rest

-- So many strings, and the rest.
unfoldable rlp_items : ℕ → Bytes → Option (List Bytes × Bytes)
unfolding rlp_item
rlp_items zero bs = some ([], bs)
rlp_items (suc k) bs = elim (rlp_item bs) [
  | none ↦ none
  | some (b, rest) ↦ elim (rlp_items k rest) [
    | none ↦ none
    | some (items, rest') ↦ some (b ∷ items, rest')
  ]
]

rlp_items-strings :
    (bs : List Bytes) (rest : Bytes)
    → All (λ b. length b < 2 ^ 64) bs
    → rlp_items (length bs) (strings bs rest) ≡ some (bs, rest)
unfolding rlp_items
rlp_items-strings [] rest h = refl
rlp_items-strings (b ∷ bs) rest h =
    rw (rlp_item-rlp_encode_bytes b (strings bs rest) h.0, rlp_items-strings bs rest h.1, rlp_items)
      refl

abbrev fields : Payload → List Bytes
fields p =
    trimmed p.chain_id
    ∷ trimmed p.nonce
    ∷ trimmed p.max_priority_fee
    ∷ trimmed p.max_fee
    ∷ trimmed p.gas_limit
    ∷ p.to
    ∷ p.value
    ∷ p.call_data
    ∷ []

-- The empty access list.
no_access : rlp_encode_list [] ≡ 0xc0 ∷ []
unfolding rlp_encode_list header
no_access = refl

tx_items-strings : (p : Payload) → joined (tx_items p []) ≡ strings (fields p) (0xc0 ∷ [])
tx_items-strings p =
    rw
      (
        rlp_encode_uint-trimmed p.chain_id,
        rlp_encode_uint-trimmed p.nonce,
        rlp_encode_uint-trimmed p.max_priority_fee,
        rlp_encode_uint-trimmed p.max_fee,
        rlp_encode_uint-trimmed p.gas_limit,
        no_access,
      )
      refl

-- The numbers are refused if one has a leading zero.
payload_of : Option (List Bytes × Bytes) → Option Payload
unfolding be_value
payload_of (some (a ∷ b ∷ c ∷ d ∷ e ∷ to ∷ value ∷ call_data ∷ [], access)) =
    if (access === (0xc0 ∷ []))
      && (is_minimal a && (is_minimal b && (is_minimal c && (is_minimal d && is_minimal e))))
    then some (record {
      chain_id = be_value a;
      nonce = be_value b;
      max_priority_fee = be_value c;
      max_fee = be_value d;
      gas_limit = be_value e;
      to = to;
      value = value;
      call_data = call_data;
    })
    else none
payload_of _ = none

-- The parameters of a transaction from a list of eight strings and an empty list.
unfoldable pub read_tx : Bytes → Option Payload
unfolding rlp_list rlp_items payload_of
read_tx bs = elim (rlp_list bs) [
  | none ↦ none
  | some (items, []) ↦ payload_of (rlp_items 8 items)
  | some (items, b ∷ rest) ↦ none
]

length-header : (s l n : ℕ) → length (header s l n) ≤ 9
length-header s l n = elim (Bool-cases (leb n 55)) [
  | inl short ↦ rw (header-short s l n short) (omega arith)
  | inr long ↦ rw (header-long s l n long) (omega (arith, length-trimmed n))
]

length-rlp_encode_bytes : (b : Bytes) → length (rlp_encode_bytes b) ≤ length b + 9
unfolding rlp_encode_bytes
length-rlp_encode_bytes b = elim (Bool-cases (is_single b)) [
  | inl single ↦ rw single (omega arith)
  | inr several ↦ rw several (
      omega
        (arith, length-append (header 0x80 0xb7 (length b)) b, length-header 0x80 0xb7 (length b)))
]

-- A bound on the length of the strings and the access list.
abbrev bound : List Bytes → ℕ
bound [] = 1
bound (b ∷ bs) = length b + 9 + bound bs

length-strings : (bs : List Bytes) → length (strings bs (0xc0 ∷ [])) ≤ bound bs
length-strings [] = omega arith
length-strings (b ∷ bs) = omega (
  arith,
  length-append (rlp_encode_bytes b) (strings bs (0xc0 ∷ [])),
  length-rlp_encode_bytes b,
  length-strings bs,
)

-- Five `u64`, and bytes whose lengths leave that of the payload below 2 ^ 64.
pub record IsPayload (p : Payload) : Type 0 where
  pub chain : p.chain_id < 2 ^ 64
  pub count : p.nonce < 2 ^ 64
  pub priority : p.max_priority_fee < 2 ^ 64
  pub fee : p.max_fee < 2 ^ 64
  pub gas : p.gas_limit < 2 ^ 64
  pub fits : length p.to + length p.value + length p.call_data + 128 < 2 ^ 64

length-tx_items :
    (p : Payload)
    → length (strings (fields p) (0xc0 ∷ []))
      ≤ length p.to + length p.value + length p.call_data + 113
length-tx_items p = omega (
  arith,
  length-strings (fields p),
  length-trimmed p.chain_id,
  length-trimmed p.nonce,
  length-trimmed p.max_priority_fee,
  length-trimmed p.max_fee,
  length-trimmed p.gas_limit,
)

fields-All : (p : Payload) → IsPayload p → All (λ b. length b < 2 ^ 64) (fields p)
fields-All p h =
    let small : (n : ℕ) → length (trimmed n) < 2 ^ 64 = λ n. omega (arith, length-trimmed n) in
    let rest : (length p.to < 2 ^ 64)
        × ((length p.value < 2 ^ 64) × ((length p.call_data < 2 ^ 64) × Unit)) =
      (omega (arith, h.fits), (omega (arith, h.fits), (omega (arith, h.fits), tt))) in
    (
      small p.chain_id,
      (small p.nonce, (small p.max_priority_fee, (small p.max_fee, (small p.gas_limit, rest)))),
    )

-- The payload that is signed is read as the parameters of its transaction by the rules of RLP, which
-- refuse a string, a length or a number that is not in its shortest form; for five `u64` and bytes
-- whose lengths leave that of the payload below 2 ^ 64, with the value taken as bytes.
pub read_tx-build_tx_rlp : (p : Payload) → IsPayload p → read_tx (build_tx_rlp p) ≡ some p
unfolding read_tx build_tx_rlp rlp_encode_list payload_of ◌===◌
read_tx-build_tx_rlp p h =
    let items = strings (fields p) (0xc0 ∷ []) in
    let short : length items < 2 ^ 64 = omega (arith, length-tx_items p, h.fits) in
    let listed : rlp_list (header 0xc0 0xf7 (length items) ++ items) ≡ some (items, []) =
      subst (λ bs. rlp_list (header 0xc0 0xf7 (length items) ++ bs) ≡ some (items, []))
        (append-nil items) (header-list items [] short) in
    rw
      (
        tx_items-strings p,
        listed,
        rlp_items-strings (fields p) (0xc0 ∷ []) (fields-All p h),
        read_tx,
      )
      (rw
        (
          trimmed-minimal p.chain_id,
          trimmed-minimal p.nonce,
          trimmed-minimal p.max_priority_fee,
          trimmed-minimal p.max_fee,
          trimmed-minimal p.gas_limit,
          be_value-trimmed p.chain_id h.chain,
          be_value-trimmed p.nonce h.count,
          be_value-trimmed p.max_priority_fee h.priority,
          be_value-trimmed p.max_fee h.fee,
          be_value-trimmed p.gas_limit h.gas,
        )
        refl)
