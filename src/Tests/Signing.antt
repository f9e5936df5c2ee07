-- ===== src/Tests/Signing.antt =====
-- The payload of a transaction.
use web_3_bank.Prelude.{◌≡◌, refl, some, [], ◌∷◌, replicate, arith}
use web_3_bank.Eth.Rlp.{Payload, rlp_encode_uint, rlp_encode_bytes, build_tx_rlp}
use web_3_bank.Eth.Payloads.{IsPayload, read_tx, read_tx-build_tx_rlp}

coded : rlp_encode_uint 1024 ≡ 0x82 ∷ 0x04 ∷ 0x00 ∷ []
unfolding rlp_encode_uint rlp_encode_bytes
coded = refl

abbrev payload : Payload
payload = record {
  chain_id = 8453;
  nonce = 7;
  max_priority_fee = 0;
  max_fee = 110;
  gas_limit = 120000;
  to = replicate 20 1;
  value = [];
  call_data = replicate 68 2;
}

payload-IsPayload : IsPayload payload
payload-IsPayload = record {
  chain = omega arith;
  count = omega arith;
  priority = omega arith;
  fee = omega arith;
  gas = omega arith;
  fits = omega arith;
}

read_tx-build_tx_rlp_example : read_tx (build_tx_rlp payload) ≡ some payload
read_tx-build_tx_rlp_example = read_tx-build_tx_rlp payload payload-IsPayload
