-- ===== src/Decommission/StaleNonce.antt =====
-- A nonce that was used up elsewhere, in services/treasury/src/decommission_runtime.rs.
use web_3_bank.Prelude.{
  ℕ, ◌+◌, ◌≡◌, refl, ap, Option, none, some, List, [], ◌∷◌, Bytes, Bool, true, false,
}
use web_3_bank.Prelude.Dict.{get}
use web_3_bank.Eth.Submit.{TxError, Result, ok, err, Tx, Net, parse_address}
use web_3_bank.Decommission.Bank.{
  BankRuntime, BankResult, called, Sent, nonce_or_fetch, bank_nonce, on_send, on_signature, bank_tx,
  on_address, on_fees, on_nonce, submit_at, submit_bank_call,
}

-- The nodes refuse every transaction with this nonce.
abbrev pub Refuses : BankRuntime → ℕ → Type 0
Refuses b nonce =
    (t : ℕ) (url raw : Bytes) (tx : Tx)
    → b.node.sign_eip1559_tx tx b.signer ≡ ok raw
    → tx.nonce ≡ nonce
    → (e : TxError) × (b.node.send_raw_transaction t url raw ≡ err e)

abbrev pub is_called : BankResult Sent → Bool
is_called (called sent) = true
is_called other = false

-- The call fails, and the nonce stays.
record Stuck (chain nonce : ℕ) (r : BankResult Sent × Net) : Type 0 where
  unsent : is_called r.0 ≡ false
  kept : get chain r.1.nonce_cache ≡ some nonce

module _ (b : BankRuntime) (nonce : ℕ) (refuses : Refuses b nonce) (chain : ℕ) where
  signature-Stuck :
      (url : Bytes) (tx : Tx) (r : Result Bytes) (n : Net)
      → b.node.sign_eip1559_tx tx b.signer ≡ r
      → tx.nonce ≡ nonce
      → get chain n.nonce_cache ≡ some nonce
      → Stuck chain nonce (on_signature b chain url tx r n)
  unfolding on_signature on_send
  signature-Stuck url tx (err e) n s t h = record { unsent = refl; kept = h }
  signature-Stuck url tx (ok raw) n s t h =
      let (e, refusal) = refuses n.tick url raw tx s t in
      rw refusal (record { unsent = refl; kept = h })

  address-Stuck :
      (url call_data : Bytes) (fees : ℕ × ℕ) (to : Option Bytes) (n : Net)
      → get chain n.nonce_cache ≡ some nonce
      → Stuck chain nonce (on_address b chain url nonce fees call_data to n)
  unfolding on_address
  address-Stuck url call_data fees none n h = record { unsent = refl; kept = h }
  address-Stuck url call_data fees (some to) n h =
      let tx = bank_tx chain nonce fees to call_data in
      signature-Stuck url tx (b.node.sign_eip1559_tx tx b.signer) n refl refl h

  fees-Stuck :
      (url bank call_data : Bytes) (r : Result (ℕ × ℕ)) (n : Net)
      → get chain n.nonce_cache ≡ some nonce
      → Stuck chain nonce (on_fees b chain url bank nonce call_data r n)
  unfolding on_fees
  fees-Stuck url bank call_data (err e) n h = record { unsent = refl; kept = h }
  fees-Stuck url bank call_data (ok fees) n h =
      address-Stuck url call_data fees (parse_address bank) n h

  bank_nonce-kept :
      (url : Bytes) (n : Net)
      → get chain n.nonce_cache ≡ some nonce
      → bank_nonce b chain url n ≡ (ok nonce, n)
  unfolding bank_nonce nonce_or_fetch
  bank_nonce-kept url n h = ap (λ o. nonce_or_fetch b chain url o n) h

  at-Stuck :
      (call_data : Bytes) (url bank : Option Bytes) (n : Net)
      → get chain n.nonce_cache ≡ some nonce
      → Stuck chain nonce (submit_at b chain call_data url bank n)
  unfolding submit_at on_nonce
  at-Stuck call_data none bank n h = record { unsent = refl; kept = h }
  at-Stuck call_data (some url) none n h = record { unsent = refl; kept = h }
  at-Stuck call_data (some url) (some bank) n h = rw (bank_nonce-kept url n h) (
      fees-Stuck url bank call_data (b.node.fetch_gas_params n.tick url)
        (record n { tick = n.tick + 1 }) h)

-- Calls of the bank on one chain, one after the other.
unfoldable pub calls : BankRuntime → ℕ → List Bytes → Net → Net
unfolding submit_bank_call
calls b chain [] n = n
calls b chain (call_data ∷ rest) n = calls b chain rest (submit_bank_call b chain call_data n).1

module _ (b : BankRuntime) (nonce : ℕ) (refuses : Refuses b nonce) (chain : ℕ) where
  calls-kept :
      (before : List Bytes) (n : Net)
      → get chain n.nonce_cache ≡ some nonce
      → get chain (calls b chain before n).nonce_cache ≡ some nonce
  unfolding calls submit_bank_call
  calls-kept [] n h = h
  calls-kept (call_data ∷ rest) n h =
      calls-kept rest (submit_bank_call b chain call_data n).1
        (at-Stuck b nonce refuses chain call_data (get chain b.rpc_urls)
          (get chain b.contract_addresses) n h).kept

  -- If the nonce that is kept for a chain is one that the nodes refuse, every later call of the bank
  -- on this chain fails, after any number of calls.
  pub submit_bank_call-stuck :
      (before : List Bytes) (call_data : Bytes) (n : Net)
      → get chain n.nonce_cache ≡ some nonce
      → is_called (submit_bank_call b chain call_data (calls b chain before n)).0 ≡ false
  unfolding submit_bank_call
  submit_bank_call-stuck before call_data n h =
      (at-Stuck b nonce refuses chain call_data (get chain b.rpc_urls)
        (get chain b.contract_addresses) (calls b chain before n) (calls-kept before n h)).unsent
