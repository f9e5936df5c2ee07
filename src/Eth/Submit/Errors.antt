-- ===== src/Eth/Submit/Errors.antt =====
-- The errors that a submission returns.
use web_3_bank.Prelude.{ℕ, zero, suc, ◌≡◌, ◌⊎◌, inl, inr, Option, none, some, Bytes}
use web_3_bank.Eth.Submit.{
  TxError, missing_key, retry_exhausted, Result, ok, err, Node, Net, Call, flush_nonce, submit_once,
  attempts, submit_with_retry, max_retries,
}

-- A failed attempt's own error is dropped.
last_error :
    {A : Type 0} {e : TxError} (r : Result A) (n : Net) (again : Result A × Net)
    → (again.0 ≡ err e → e ≡ retry_exhausted max_retries)
    → (elim r as (λ _. Result A × Net) [ ok a ↦ (ok a, n) | err e' ↦ again ]).0 ≡ err e
    → e ≡ retry_exhausted max_retries
last_error (ok a) n again k h = cc
last_error (err e') n again k h = k h

attempts-exhausted :
    (k : ℕ) (node : Node) (c : Call) (key : Bytes) (addr : Option Bytes) (n : Net) {e : TxError}
    → (attempts k node c key addr n).0 ≡ err e
    → e ≡ retry_exhausted max_retries
unfolding attempts
attempts-exhausted zero node c key addr n h = cc
attempts-exhausted (suc k) node c key addr n h =
    let (r, n') = submit_once node c key addr n in
    let flushed = flush_nonce c.chain_id n' in
    last_error r n' (attempts k node c key addr flushed)
      (attempts-exhausted k node c key addr flushed) h

-- A submission that fails returns one of two errors: that the key is missing, or that its three
-- attempts are used up. What the node or the contract answered is lost.
submit_with_retry-errors :
    (node : Node) (c : Call) (key addr : Option Bytes) (n : Net) {e : TxError}
    → (submit_with_retry node c key addr n).0 ≡ err e
    → (e ≡ missing_key) ⊎ (e ≡ retry_exhausted max_retries)
unfolding submit_with_retry
submit_with_retry-errors node c none addr n h = inl cc
submit_with_retry-errors node c (some key) addr n h =
    inr (attempts-exhausted max_retries node c key addr n h)
