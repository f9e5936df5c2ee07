-- ===== src/Decommission/Bank.antt =====
-- The calls of the bank in a drain, `RuntimeBankDrain` of
-- services/treasury/src/decommission_runtime.rs.
use web_3_bank.Prelude.{ℕ, ◌+◌, ◌-◌, ◌^◌, min, Option, none, some, [], ◌∷◌, Bytes}
use web_3_bank.Prelude.Dict.{Dict, get, insert}
use web_3_bank.Eth.Abi.{encode_rebalance, encode_bridge_reserve}
use web_3_bank.Eth.Messages.{extract_ccip_message_id}
use web_3_bank.Eth.Submit.{TxError, Result, ok, err, Tx, Logs, Node, Net, parse_address}

pub record BankRuntime : Type 0 where
  pub node : Node
  pub rpc_urls : Dict Bytes
  pub contract_addresses : Dict Bytes
  pub signer : Bytes
  pub signer_address : Bytes
  pub rebalance_selector : Bytes
  pub bridge_reserve_selector : Bytes
  pub ccip_topic : Bytes

-- `Result<_, String>`: the errors, less the texts of those of a transaction.
pub data BankResult (A : Type 0) : Type 0 where
  called : A → BankResult A
  missing_source_rpc missing_source_bank invalid_bank_address : BankResult A
  failed : TxError → BankResult A

-- The hash of the transaction and the message identifier.
abbrev pub Sent : Type 0
Sent = Bytes × Option Bytes

abbrev later : Net → Net
later n = record n { tick = n.tick + 1 }

abbrev keep_nonce : ℕ → ℕ → Net → Net
keep_nonce chain nonce n = record n { nonce_cache = insert chain nonce n.nonce_cache }

-- A fetched nonce is kept.
unfoldable pub fetched : ℕ → Result ℕ → Net → Result ℕ × Net
fetched chain (err e) n = (err e, n)
fetched chain (ok nonce) n = (ok nonce, keep_nonce chain nonce n)

-- With the nonce of the cache.
unfoldable pub nonce_or_fetch : BankRuntime → ℕ → Bytes → Option ℕ → Net → Result ℕ × Net
unfolding fetched
nonce_or_fetch b chain url (some nonce) n = (ok nonce, n)
nonce_or_fetch b chain url none n =
    fetched chain (b.node.fetch_nonce n.tick url b.signer_address) (later n)

unfoldable pub bank_nonce : BankRuntime → ℕ → Bytes → Net → Result ℕ × Net
unfolding nonce_or_fetch
bank_nonce b chain url n = nonce_or_fetch b chain url (get chain n.nonce_cache) n

-- The nonce advances once the receipt is there (`saturating_add`).
unfoldable pub on_receipt : BankRuntime → ℕ → ℕ → Bytes → Result Logs → Net → BankResult Sent × Net
unfolding extract_ccip_message_id
on_receipt b chain nonce hash (err e) n = (failed e, n)
on_receipt b chain nonce hash (ok logs) n = (
  called (hash, extract_ccip_message_id b.ccip_topic logs),
  keep_nonce chain (min (nonce + 1) (2 ^ 64 - 1)) n,
)

unfoldable pub on_send : BankRuntime → ℕ → ℕ → Bytes → Result Bytes → Net → BankResult Sent × Net
unfolding on_receipt
on_send b chain nonce url (err e) n = (failed e, n)
on_send b chain nonce url (ok hash) n =
    on_receipt b chain nonce hash (b.node.wait_for_receipt n.tick url hash) (later n)

unfoldable pub on_signature :
    BankRuntime → ℕ → Bytes → Tx → Result Bytes → Net → BankResult Sent × Net
unfolding on_send
on_signature b chain url tx (err e) n = (failed e, n)
on_signature b chain url tx (ok raw) n =
    on_send b chain tx.nonce url (b.node.send_raw_transaction n.tick url raw)
      (record n { tick = n.tick + 1; sent = record { rpc_url = url; tx = tx } ∷ n.sent })

abbrev pub bank_tx : ℕ → ℕ → ℕ × ℕ → Bytes → Bytes → Tx
bank_tx chain nonce (max_fee, tip) to call_data = record {
  chain_id = chain;
  nonce = nonce;
  max_priority_fee = tip;
  max_fee = max_fee;
  gas_limit = 300000;
  to = to;
  value = [];
  call_data = call_data;
}

unfoldable pub on_address :
    BankRuntime → ℕ → Bytes → ℕ → ℕ × ℕ → Bytes → Option Bytes → Net → BankResult Sent × Net
unfolding on_signature
on_address b chain url nonce fees call_data none n = (invalid_bank_address, n)
on_address b chain url nonce fees call_data (some to) n =
    let tx = bank_tx chain nonce fees to call_data in
    on_signature b chain url tx (b.node.sign_eip1559_tx tx b.signer) n

unfoldable pub on_fees :
    BankRuntime → ℕ → Bytes → Bytes → ℕ → Bytes → Result (ℕ × ℕ) → Net → BankResult Sent × Net
unfolding on_address parse_address
on_fees b chain url bank nonce call_data (err e) n = (failed e, n)
on_fees b chain url bank nonce call_data (ok fees) n =
    on_address b chain url nonce fees call_data (parse_address bank) n

unfoldable pub on_nonce :
    BankRuntime → ℕ → Bytes → Bytes → Bytes → Result ℕ × Net → BankResult Sent × Net
unfolding on_fees
on_nonce b chain url bank call_data (err e, n) = (failed e, n)
on_nonce b chain url bank call_data (ok nonce, n) =
    on_fees b chain url bank nonce call_data (b.node.fetch_gas_params n.tick url) (later n)

-- With the node and the bank of the chain; the functions above are its steps from the given one on.
unfoldable pub submit_at :
    BankRuntime → ℕ → Bytes → Option Bytes → Option Bytes → Net → BankResult Sent × Net
unfolding on_nonce bank_nonce
submit_at b chain call_data none bank n = (missing_source_rpc, n)
submit_at b chain call_data (some url) none n = (missing_source_bank, n)
submit_at b chain call_data (some url) (some bank) n =
    on_nonce b chain url bank call_data (bank_nonce b chain url n)

unfoldable pub submit_bank_call : BankRuntime → ℕ → Bytes → Net → BankResult Sent × Net
unfolding submit_at
submit_bank_call b chain call_data n =
    submit_at b chain call_data (get chain b.rpc_urls) (get chain b.contract_addresses) n

-- `bridge_holder` and `drain_pool`: the call is the same, and does not name the holder.
unfoldable pub bridge_holder : BankRuntime → ℕ → ℕ → ℕ → Net → BankResult Sent × Net
unfolding submit_bank_call encode_rebalance
bridge_holder b source target amount n =
    submit_bank_call b source (encode_rebalance b.rebalance_selector target amount) n

unfoldable pub drain_reserve : BankRuntime → ℕ → ℕ → ℕ → Net → BankResult Sent × Net
unfolding submit_bank_call encode_bridge_reserve
drain_reserve b source target amount n =
    submit_bank_call b source (encode_bridge_reserve b.bridge_reserve_selector target amount) n
