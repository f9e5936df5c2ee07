-- ===== src/Eth/Receipts.antt =====
-- The waiting for a receipt, the gas price, the nonce and the send, services/treasury/src/eth/rpc.rs.
use web_3_bank.Prelude.{
  ℕ, zero, suc, ◌+◌, ◌/◌, ◌%◌, ◌^◌, Option, none, some, ◌++◌, ltb, Bytes, codes, ◌===◌,
  if◌then◌else◌,
}
use web_3_bank.Eth.Submit.{
  http, rpc, missing_field, hex_parse, tx_reverted, tx_timeout, Result, ok, err, Logs,
}
use web_3_bank.Eth.Quantity.{parse_hex_u64}

-- What a node answers to the question for a receipt: nothing that can be read, no receipt, or a
-- receipt with its status, if that is a text, and its logs.
pub data Poll : Type 0 where
  unanswered absent : Poll
  found : Option Bytes → Logs → Poll

abbrev pub succeeded : Bytes
succeeded = codes "0x1"

abbrev pub failed : Bytes
failed = codes "0x0"

-- What the status says, or the later rounds.
unfoldable pub by_status : Bytes → Option Bytes → Logs → Option (Result Logs) → Option (Result Logs)
by_status tx none logs rest = rest
by_status tx (some status) logs rest =
    if status === succeeded
    then some (ok logs)
    else (if status === failed then some (err (tx_reverted tx)) else rest)

unfoldable pub by_poll : Bytes → Poll → Option (Result Logs) → Option (Result Logs)
unfolding by_status
by_poll tx unanswered rest = some (err http)
by_poll tx absent rest = rest
by_poll tx (found status logs) rest = by_status tx status logs rest

-- The loop, with the answers and the clock, in milliseconds, of the times of the rounds; none if the
-- rounds do not suffice.
unfoldable pub wait_loop : (ℕ → Poll) → (ℕ → ℕ) → Bytes → ℕ → ℕ → ℕ → Option (Result Logs)
unfolding by_poll
wait_loop polls clock tx deadline zero t = none
wait_loop polls clock tx deadline (suc rounds) t =
    let rest = wait_loop polls clock tx deadline rounds (t + 1) in
    if ltb deadline (clock t) then some (err (tx_timeout tx)) else by_poll tx (polls t) rest

-- A round sleeps for 500 milliseconds.
unfoldable pub wait_for_receipt_logs : (ℕ → Poll) → (ℕ → ℕ) → Bytes → ℕ → ℕ → Option (Result Logs)
unfolding wait_loop
wait_for_receipt_logs polls clock tx timeout t =
    wait_loop polls clock tx (clock t + timeout) (suc (timeout / 500 + 1)) t

-- The gas price is the answer's; the sum wraps, as it does without overflow checks.
abbrev gas_from : Option ℕ → Result (ℕ × ℕ)
gas_from none = err hex_parse
gas_from (some price) = ok ((price + price / 10) % 2 ^ 64, price / 10)

-- With the answer: none that can be read, or one with or without the text of a `result`.
unfoldable pub fetch_gas_params : Option (Option Bytes) → Result (ℕ × ℕ)
unfolding parse_hex_u64
fetch_gas_params none = err http
fetch_gas_params (some none) = err missing_field
fetch_gas_params (some (some hex)) = gas_from (parse_hex_u64 hex)

abbrev nonce_from : Option ℕ → Result ℕ
nonce_from none = err hex_parse
nonce_from (some nonce) = ok nonce

unfoldable pub fetch_nonce : Option (Option Bytes) → Result ℕ
unfolding parse_hex_u64
fetch_nonce none = err http
fetch_nonce (some none) = err missing_field
fetch_nonce (some (some hex)) = nonce_from (parse_hex_u64 hex)

-- What a node answers to a transaction: nothing that can be read, an error with its text, or the text
-- of a `result`, if there is one.
pub data SendAnswer : Type 0 where
  unread : SendAnswer
  error : Bytes → SendAnswer
  result : Option Bytes → SendAnswer

unfoldable pub send_raw_transaction : SendAnswer → Result Bytes
send_raw_transaction unread = err http
send_raw_transaction (error text) = err (rpc (codes "eth_sendRawTransaction: " ++ text))
send_raw_transaction (result none) = err missing_field
send_raw_transaction (result (some hash)) = ok hash
