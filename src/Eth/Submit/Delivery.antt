-- ===== src/Eth/Submit/Delivery.antt =====
-- A submission against nodes that answer.
use web_3_bank.Prelude.{
  ◌∙◌, ap, ℕ, ◌+◌, ◌%◌, ◌^◌, ◌≡◌, refl, none, some, ◌∷◌, Bytes, arith, Option-cases, inl, inr,
}
use web_3_bank.Prelude.Dict.{get, insert, get-insert}
use web_3_bank.Eth.Submit.{
  Result, ok, err, Node, Net, Call, Tx, Logs, M, ◌>>=◌, ask, lift, get_nonce, parse_address, send,
  tx_of, await_receipt, send_and_wait, broadcast, with_fees, with_nonce, with_address, submit_once,
  attempts, submit_with_retry,
}
use web_3_bank.Eth.Submit.Sends.{IsFor}

-- The node of the call answers every query with a value, the key signs, a transaction is accepted and
-- mined, and the contract's address is one.
pub record Answers (node : Node) (c : Call) : Type 0 where
  pub counts : (t : ℕ) (addr : Bytes) → (k : ℕ) × (node.fetch_nonce t c.rpc_url addr ≡ ok k)
  pub prices : (t : ℕ) → (fees : ℕ × ℕ) × (node.fetch_gas_params t c.rpc_url ≡ ok fees)
  pub signs : (tx : Tx) (key : Bytes) → (raw : Bytes) × (node.sign_eip1559_tx tx key ≡ ok raw)
  pub accepts :
      (t : ℕ) (raw : Bytes) → (hash : Bytes) × (node.send_raw_transaction t c.rpc_url raw ≡ ok hash)
  pub confirms :
      (t : ℕ) (hash : Bytes) → (logs : Logs) × (node.wait_for_receipt t c.rpc_url hash ≡ ok logs)
  pub to : Bytes
  pub addressed : parse_address c.contract ≡ some to

-- One transaction was sent, it makes the call, and the next nonce is cached.
pub record Delivered (c : Call) (n : Net) (out : Result (Bytes × Logs) × Net) : Type 0 where
  pub hash : Bytes
  pub logs : Logs
  pub tx : Tx
  pub returned : out.0 ≡ ok (hash, logs)
  pub extended : out.1.sent ≡ record { rpc_url = c.rpc_url; tx = tx } ∷ n.sent
  pub makes : IsFor c (record { rpc_url = c.rpc_url; tx = tx })
  pub next : get c.chain_id out.1.nonce_cache ≡ some ((tx.nonce + 1) % 2 ^ 64)
  pub cached : (k : ℕ) → get c.chain_id n.nonce_cache ≡ some k → tx.nonce ≡ k

-- A step that succeeds is followed by the next.
bind-ok :
    {A B : Type 0} (m : M A) (f : A → M B) (a : A) (n n' : Net)
    → m n ≡ (ok a, n')
    → (m >>= f) n ≡ f a n'
bind-ok {A} {B} m f a n n' e =
    ap
      (λ (p : Result A × Net). elim p.0 as (λ _. Result B × Net) [
        | ok a ↦ f a p.1
        | err e ↦ (err e, p.1)
      ])
      e

module _ (node : Node) (c : Call) (a : Answers node c) (key : Bytes) where
  -- The steps of an attempt, each as the step after it.
  with_nonce-with_fees :
      (k : ℕ) (fees : ℕ × ℕ) (n : Net)
      → node.fetch_gas_params n.tick c.rpc_url ≡ ok fees
      → with_nonce node c key k n ≡ with_fees node c key k fees (record n { tick = n.tick + 1 })
  unfolding with_nonce
  with_nonce-with_fees k fees n e = rw e refl

  with_fees-broadcast :
      (k : ℕ) (fees : ℕ × ℕ) (n : Net)
      → with_fees node c key k fees n ≡ broadcast node c key k fees a.to n
  unfolding with_fees
  with_fees-broadcast k fees n = rw a.addressed refl

  broadcast-send_and_wait :
      (k : ℕ) (fees : ℕ × ℕ) (raw : Bytes) (n : Net)
      → node.sign_eip1559_tx (tx_of c k fees a.to) key ≡ ok raw
      → broadcast node c key k fees a.to n
        ≡ send_and_wait node c
            (tx_of c k fees a.to)
            raw
            (record n { nonce_cache = insert c.chain_id ((k + 1) % 2 ^ 64) n.nonce_cache })
  unfolding broadcast
  broadcast-send_and_wait k fees raw n e = rw e refl

  send_and_wait-eq :
      (tx : Tx) (raw hash : Bytes) (logs : Logs) (n : Net)
      → node.send_raw_transaction n.tick c.rpc_url raw ≡ ok hash
      → node.wait_for_receipt (n.tick + 1) c.rpc_url hash ≡ ok logs
      → send_and_wait node c tx raw n ≡ (
        ok (hash, logs),
        record n { tick = n.tick + 1 + 1; sent = record { rpc_url = c.rpc_url; tx = tx } ∷ n.sent },
      )
  unfolding send_and_wait send await_receipt
  send_and_wait-eq tx raw hash logs n e e' =
      let n' : Net = record n {
        tick = n.tick + 1;
        sent = record { rpc_url = c.rpc_url; tx = tx } ∷ n.sent;
      } in
      bind-ok (send node c tx raw) (await_receipt node c) hash n n' (rw e refl)
      ∙ bind-ok (ask (λ t. node.wait_for_receipt t c.rpc_url hash)) (λ l. lift (ok (hash, l))) logs
          n' (record n' { tick = n'.tick + 1 }) (rw e' refl)

  with_nonce-Delivered :
      (k : ℕ) (n : Net)
      → ((j : ℕ) → get c.chain_id n.nonce_cache ≡ some j → k ≡ j)
      → Delivered c n (with_nonce node c key k n)
  with_nonce-Delivered k n h =
      let (fees, priced) = a.prices n.tick in
      let tx = tx_of c k fees a.to in
      let n' = record n { tick = n.tick + 1 } in
      let (raw, signed) = a.signs tx key in
      let cache = insert c.chain_id ((k + 1) % 2 ^ 64) n.nonce_cache in
      let n'' = record n' { nonce_cache = cache } in
      let (hash, accepted) = a.accepts n''.tick raw in
      let (logs, confirmed) = a.confirms (n''.tick + 1) hash in
      rw
        (
          with_nonce-with_fees k fees n priced,
          with_fees-broadcast k fees n',
          broadcast-send_and_wait k fees raw n' signed,
          send_and_wait-eq tx raw hash logs n'' accepted confirmed,
        )
        (record {
          hash = hash;
          logs = logs;
          tx = tx;
          returned = refl;
          extended = refl;
          makes = record {
            same_node = refl;
            same_chain = refl;
            same_data = refl;
            same_value = refl;
            same_contract = a.addressed;
          };
          next = ground (arith, get-insert c.chain_id c.chain_id ((k + 1) % 2 ^ 64) n.nonce_cache);
          cached = h;
        })

  -- A failed lookup asks the node.
  get_nonce-fresh :
      (k : ℕ) (addr : Bytes) (n : Net)
      → get c.chain_id n.nonce_cache ≡ none
      → node.fetch_nonce n.tick c.rpc_url addr ≡ ok k
      → with_address node c key addr n ≡ with_nonce node c key k (record n { tick = n.tick + 1 })
  unfolding with_address get_nonce
  get_nonce-fresh k addr n fresh counted =
      bind-ok (get_nonce node c.chain_id c.rpc_url addr) (with_nonce node c key) k n
        (record n { tick = n.tick + 1 }) (rw (fresh, get_nonce) (rw counted refl))

  get_nonce-cached :
      (k : ℕ) (addr : Bytes) (n : Net)
      → get c.chain_id n.nonce_cache ≡ some k
      → with_address node c key addr n ≡ with_nonce node c key k n
  unfolding with_address get_nonce
  get_nonce-cached k addr n old =
      bind-ok (get_nonce node c.chain_id c.rpc_url addr) (with_nonce node c key) k n n
        (rw (old, get_nonce) refl)

  with_address-Delivered : (addr : Bytes) (n : Net) → Delivered c n (with_address node c key addr n)
  with_address-Delivered addr n = elim (Option-cases (get c.chain_id n.nonce_cache)) [
    | inl fresh ↦
        let (k, counted) = a.counts n.tick addr in
        let d =
          with_nonce-Delivered k (record n { tick = n.tick + 1 })
            (λ j e. let no : none ≡ some j = rw fresh at e in cc) in
        rw (get_nonce-fresh k addr n fresh counted) (record {
          hash = d.hash;
          logs = d.logs;
          tx = d.tx;
          returned = d.returned;
          extended = d.extended;
          makes = d.makes;
          next = d.next;
          cached = d.cached;
        })
    | inr (k, old) ↦ rw (get_nonce-cached k addr n old) (with_nonce-Delivered k n (λ j e. cc))
  ]

  -- If the node answers every query, accepts and mines what it is sent, the key signs and the
  -- contract's address is one, a submission with a key and an address returns a hash and sends exactly
  -- one transaction, which makes the call with the cached nonce, if there is one, and the nonce after
  -- it is cached.
  pub submit_with_retry-Delivered :
      (addr : Bytes) (n : Net) → Delivered c n (submit_with_retry node c (some key) (some addr) n)
  unfolding submit_with_retry attempts submit_once
  submit_with_retry-Delivered addr n =
      let d = with_address-Delivered addr n in
      record {
        hash = d.hash;
        logs = d.logs;
        tx = d.tx;
        returned = rw d.returned refl;
        extended = rw d.returned d.extended;
        makes = d.makes;
        next = rw d.returned d.next;
        cached = d.cached;
      }
