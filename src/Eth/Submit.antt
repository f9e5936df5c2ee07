-- ===== src/Eth/Submit.antt =====
-- How a module submits a transaction: the cached nonce, the gas price, the signature, the send and
-- the receipt, tried at most three times. The four path modules (hot_path.rs, cold_path.rs,
-- reserve_path.rs, watcher.rs) each hold a copy of this code.
pub mod Sends
pub mod Delivery
pub mod Errors
use web_3_bank.Prelude.{
  ℕ, zero, suc, ◌+◌, ◌%◌, ◌^◌, ◌≡◌, Bool, Option, none, some, List, [], ◌∷◌, if◌then◌else◌, ◌==◌,
  Bytes, length,
}
use web_3_bank.Prelude.Dict.{Dict, get, insert, remove}
use web_3_bank.Eth.Hex.{decode_hex}

-- `TxError` of services/treasury/src/error.rs.
pub data TxError : Type 0 where
  http missing_field hex_parse : TxError
  rpc : Bytes → TxError
  tx_reverted : Bytes → TxError
  tx_timeout : Bytes → TxError
  signing : Bytes → TxError
  invalid_address missing_key rebalance_cap_exceeded dest_chain_not_allowlisted : TxError
  pool_depth_insufficient : TxError
  retry_exhausted : ℕ → TxError

pub data Result (A : Type 0) : Type 0 where
  ok : A → Result A
  err : TxError → Result A

-- The arguments of `sign_eip1559_tx` but for the key.
pub record Tx : Type 0 where
  pub chain_id : ℕ
  pub nonce : ℕ
  pub max_priority_fee : ℕ
  pub max_fee : ℕ
  pub gas_limit : ℕ
  pub to : Bytes
  pub value : Bytes
  pub call_data : Bytes

-- The topics of a receipt's logs.
abbrev pub Logs : Type 0
Logs = List (List Bytes)

-- What the RPC nodes and the signing library answer. A call's first argument is the time of the
-- call, so that no two calls need have the same answer.
pub record Node : Type 0 where
  pub fetch_u256_view : ℕ → Bytes → Bytes → Bytes → Option ℕ
  pub fetch_nonce : ℕ → Bytes → Bytes → Result ℕ
  pub fetch_gas_params : ℕ → Bytes → Result (ℕ × ℕ)
  pub sign_eip1559_tx : Tx → Bytes → Result Bytes
  pub send_raw_transaction : ℕ → Bytes → Bytes → Result Bytes
  pub wait_for_receipt : ℕ → Bytes → Bytes → Result Logs

-- A transaction that a node was asked to broadcast, and the node.
pub record Sent : Type 0 where
  pub rpc_url : Bytes
  pub tx : Tx

-- What a module keeps (`nonce_cache`), the time, and the transactions sent so far, the last first.
pub record Net : Type 0 where
  pub tick : ℕ
  pub nonce_cache : Dict ℕ
  pub sent : List Sent

-- A contract call that a module wants made, and `map_err` on the error of the send.
pub record Call : Type 0 where
  pub chain_id : ℕ
  pub rpc_url : Bytes
  pub contract : Bytes
  pub gas_limit : ℕ
  pub value : Bytes
  pub call_data : Bytes
  pub send_error : TxError → TxError

abbrev pub M : Type 0 → Type 0
M A = Net → Result A × Net

infixl 5 ◌>>=◌ ◌>>◌
abbrev pub ◌>>=◌ : {A B : Type 0} → M A → (A → M B) → M B
◌>>=◌ m f n = let (r, n') = m n in elim r [ ok a ↦ f a n' | err e ↦ (err e, n') ]

abbrev pub ◌>>◌ : {A B : Type 0} → M A → M B → M B
m >> k = m >>= λ _. k

-- A call out takes the answer of its time.
abbrev pub ask : {A : Type 0} → (ℕ → Result A) → M A
ask f n = (f n.tick, record n { tick = n.tick + 1 })

abbrev pub lift : {A : Type 0} → Result A → M A
lift r n = (r, n)

-- `.ok_or(e)`
abbrev pub ok_or : {A : Type 0} → Option A → TxError → Result A
ok_or none e = err e
ok_or (some a) e = ok a

get_nonce : Node → ℕ → Bytes → Bytes → M ℕ
get_nonce node chain url addr n = elim (get chain n.nonce_cache) [
  | some k ↦ (ok k, n)
  | none ↦ ask (λ t. node.fetch_nonce t url addr) n
]

-- `decode_hex(addr).filter(|b| b.len() == 20)`
unfoldable pub parse_address : Bytes → Option Bytes
unfolding decode_hex
parse_address text = elim (decode_hex text) [
  | none ↦ none
  | some b ↦ if length b == 20 then some b else none
]

abbrev put_nonce : ℕ → ℕ → M (Unit {0})
put_nonce chain nonce n = (ok tt, record n { nonce_cache = insert chain nonce n.nonce_cache })

abbrev flush_nonce : ℕ → Net → Net
flush_nonce chain n = record n { nonce_cache = remove chain n.nonce_cache }

abbrev map_err : {A : Type 0} → (TxError → TxError) → Result A → Result A
map_err f (ok a) = ok a
map_err f (err e) = err (f e)

send : Node → Call → Tx → Bytes → M Bytes
send node c tx raw n = (
  map_err c.send_error (node.send_raw_transaction n.tick c.rpc_url raw),
  record n { tick = n.tick + 1; sent = record { rpc_url = c.rpc_url; tx = tx } ∷ n.sent },
)

abbrev tx_of : Call → ℕ → ℕ × ℕ → Bytes → Tx
tx_of c nonce fees to = record {
  chain_id = c.chain_id;
  nonce = nonce;
  max_priority_fee = fees.1;
  max_fee = fees.0;
  gas_limit = c.gas_limit;
  to = to;
  value = c.value;
  call_data = c.call_data;
}

await_receipt : Node → Call → Bytes → M (Bytes × Logs)
await_receipt node c hash = do
  logs ← ask (λ t. node.wait_for_receipt t c.rpc_url hash)
  lift (ok (hash, logs))

send_and_wait : Node → Call → Tx → Bytes → M (Bytes × Logs)
unfolding send await_receipt
send_and_wait node c tx raw = do hash ← send node c tx raw; await_receipt node c hash

-- The cached nonce is advanced before the send.
broadcast : Node → Call → Bytes → ℕ → ℕ × ℕ → Bytes → M (Bytes × Logs)
unfolding send_and_wait
broadcast node c key nonce fees to = do
  raw ← lift (node.sign_eip1559_tx (tx_of c nonce fees to) key)
  put_nonce c.chain_id ((nonce + 1) % 2 ^ 64)
  send_and_wait node c (tx_of c nonce fees to) raw

with_fees : Node → Call → Bytes → ℕ → ℕ × ℕ → M (Bytes × Logs)
unfolding parse_address broadcast
with_fees node c key nonce fees = do
  to ← lift (ok_or (parse_address c.contract) invalid_address)
  broadcast node c key nonce fees to

with_nonce : Node → Call → Bytes → ℕ → M (Bytes × Logs)
unfolding with_fees
with_nonce node c key nonce = do
  fees ← ask (λ t. node.fetch_gas_params t c.rpc_url)
  with_fees node c key nonce fees

with_address : Node → Call → Bytes → Bytes → M (Bytes × Logs)
unfolding get_nonce with_nonce
with_address node c key addr = do
  nonce ← get_nonce node c.chain_id c.rpc_url addr
  with_nonce node c key nonce

-- One attempt, `submit_*_once`; the functions above are its steps from the given one on.
unfoldable pub submit_once : Node → Call → Bytes → Option Bytes → M (Bytes × Logs)
unfolding with_address
submit_once node c key address = do
  addr ← lift (ok_or address missing_key)
  with_address node c key addr

-- `MAX_RELAY_RETRIES`, `MAX_RETRIES`, `MAX_PAUSE_RETRIES`
abbrev pub max_retries : ℕ
max_retries = 3

-- `for attempt in 1..=MAX`, with the attempts that are left; the waits between them are left out.
unfoldable pub attempts : ℕ → Node → Call → Bytes → Option Bytes → M (Bytes × Logs)
unfolding submit_once
attempts zero node c key addr n = (err (retry_exhausted max_retries), n)
attempts (suc k) node c key addr n =
    let (r, n') = submit_once node c key addr n in
    let again = attempts k node c key addr (flush_nonce c.chain_id n') in
    elim r [ ok a ↦ (ok a, n') | err e ↦ again ]

-- `submit_*_with_retry`, with the relayer's key and its address.
unfoldable pub submit_with_retry : Node → Call → Option Bytes → Option Bytes → M (Bytes × Logs)
unfolding attempts
submit_with_retry node c none addr n = (err missing_key, n)
submit_with_retry node c (some key) addr n = attempts max_retries node c key addr n
