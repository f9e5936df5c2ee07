-- ===== src/Eth/Submit/Sends.antt =====
-- The transactions that a submission sends.
use web_3_bank.Prelude.{
  ℕ, zero, suc, ◌+◌, ◌%◌, ◌^◌, ◌≤◌, ◌≡◌, refl, Option, none, some, List, [], ◌∷◌, ◌++◌, Bytes,
  length, All, All-append, length-append, arith,
}
use web_3_bank.Eth.Submit.{
  TxError, missing_key, invalid_address, Result, ok, err, Node, Net, Call, Sent, M, Logs, ask, lift,
  ok_or, ◌>>=◌, ◌>>◌, get_nonce, parse_address, put_nonce, flush_nonce, send, tx_of, await_receipt,
  send_and_wait, broadcast, with_fees, with_nonce, with_address, submit_once, attempts,
  submit_with_retry, max_retries,
}
use mathlib.Core.List.{append_assoc}

-- A transaction that makes the call.
pub record IsFor (c : Call) (s : Sent) : Type 0 where
  pub same_node : s.rpc_url ≡ c.rpc_url
  pub same_chain : s.tx.chain_id ≡ c.chain_id
  pub same_data : s.tx.call_data ≡ c.call_data
  pub same_value : s.tx.value ≡ c.value
  pub same_contract : parse_address c.contract ≡ some s.tx.to

-- From one state to the next at most `k` transactions are sent, each one for the call, and none of
-- those sent before is lost.
pub record Sends (c : Call) (k : ℕ) (n n' : Net) : Type 0 where
  pub new : List Sent
  pub extended : n'.sent ≡ new ++ n.sent
  pub few : length new ≤ k
  pub all_for : All (IsFor c) new

abbrev Only : {A : Type 0} → Call → ℕ → M A → Type 0
Only c k m = (n : Net) → Sends c k n (m n).1

pub Sends-refl : (c : Call) (k : ℕ) (n n' : Net) → n'.sent ≡ n.sent → Sends c k n n'
Sends-refl c k n n' e = record { new = []; extended = e; few = omega arith; all_for = tt }

pub Sends-trans :
    (c : Call) (j k : ℕ) {n n' n'' : Net}
    → Sends c j n n'
    → Sends c k n' n''
    → Sends c (j + k) n n''
Sends-trans c j k s t = record {
  new = t.new ++ s.new;
  extended = rw (t.extended, s.extended) (rw append_assoc);
  few = omega (arith, length-append t.new s.new, s.few, t.few);
  all_for = All-append (IsFor c) t.new s.new t.all_for s.all_for;
}

bind_result :
    {A B : Type 0} (c : Call) (j k : ℕ) (f : A → M B) (r : Result A) {n n' : Net}
    → Sends c j n n'
    → ((a : A) → r ≡ ok a → Only c k (f a))
    → Sends c (j + k) n (elim r as (λ _. Result B × Net) [ ok a ↦ f a n' | err e ↦ (err e, n') ]).1
bind_result c j k f (ok a) {n'} s hf = Sends-trans c j k s (hf a refl n')
bind_result c j k f (err e) s hf = record {
  new = s.new;
  extended = s.extended;
  few = omega (arith, s.few);
  all_for = s.all_for;
}

bind-Only :
    {A B : Type 0} (c : Call) (j k : ℕ) (m : M A) (f : A → M B)
    → Only c j m
    → ((a : A) → Only c k (f a))
    → Only c (j + k) (m >>= f)
bind-Only c j k m f hm hf n = bind_result c j k f (m n).0 (hm n) (λ a _. hf a)

-- What a lifted result is known to be may be used after it.
lift_bind-Only :
    {A B : Type 0} (c : Call) (k : ℕ) (r : Result A) (f : A → M B)
    → ((a : A) → r ≡ ok a → Only c k (f a))
    → Only c (0 + k) (lift r >>= f)
lift_bind-Only c k r f hf n = bind_result c 0 k f r (Sends-refl c 0 n n refl) hf

ask-Only : {A : Type 0} (c : Call) (f : ℕ → Result A) → Only c 0 (ask f)
ask-Only c f n = Sends-refl c 0 n (record n { tick = n.tick + 1 }) refl

lift-Only : {A : Type 0} (c : Call) (r : Result A) → Only c 0 (lift r)
lift-Only c r n = Sends-refl c 0 n n refl

get_nonce-Only :
    (c : Call) (node : Node) (chain : ℕ) (url addr : Bytes)
    → Only c 0 (get_nonce node chain url addr)
unfolding get_nonce
get_nonce-Only c node chain url addr n =
    Sends-refl c 0 n (get_nonce node chain url addr n).1 (ground arith)

send-Only :
    (c : Call) (node : Node) (nonce : ℕ) (fees : ℕ × ℕ) (to raw : Bytes)
    → parse_address c.contract ≡ some to
    → Only c 1 (send node c (tx_of c nonce fees to) raw)
unfolding send
send-Only c node nonce fees to raw h n = record {
  new = record { rpc_url = c.rpc_url; tx = tx_of c nonce fees to } ∷ [];
  extended = refl;
  few = omega arith;
  all_for = (
    record {
      same_node = refl;
      same_chain = refl;
      same_data = refl;
      same_value = refl;
      same_contract = h;
    },
    tt,
  );
}

ok_or-some : {A : Type 0} (o : Option A) (e : TxError) {a : A} → ok_or o e ≡ ok a → o ≡ some a
ok_or-some none e h = cc
ok_or-some (some a) e h = cc

module _ (c : Call) (node : Node) (key : Bytes) where
  send_and_wait-Only :
      (nonce : ℕ) (fees : ℕ × ℕ) (to raw : Bytes)
      → parse_address c.contract ≡ some to
      → Only c 1 (send_and_wait node c (tx_of c nonce fees to) raw)
  unfolding send_and_wait await_receipt
  send_and_wait-Only nonce fees to raw known =
      bind-Only c 1 0 (send node c (tx_of c nonce fees to) raw) (await_receipt node c)
        (send-Only c node nonce fees to raw known)
        λ hash.
          bind-Only c 0 0 (ask (λ t. node.wait_for_receipt t c.rpc_url hash))
            (λ logs. lift (ok (hash, logs)))
            (ask-Only c (λ t. node.wait_for_receipt t c.rpc_url hash))
            λ logs. lift-Only {A = Bytes × Logs} c (ok (hash, logs))

  broadcast-Only :
      (nonce : ℕ) (fees : ℕ × ℕ) (to : Bytes)
      → parse_address c.contract ≡ some to
      → Only c 1 (broadcast node c key nonce fees to)
  unfolding broadcast
  broadcast-Only nonce fees to known =
      lift_bind-Only c 1 (node.sign_eip1559_tx (tx_of c nonce fees to) key)
        (λ raw.
          put_nonce c.chain_id ((nonce + 1) % 2 ^ 64)
          >> send_and_wait node c (tx_of c nonce fees to) raw)
        λ raw _.
          bind-Only c 0 1 (put_nonce c.chain_id ((nonce + 1) % 2 ^ 64))
            (λ _. send_and_wait node c (tx_of c nonce fees to) raw)
            (λ n. Sends-refl c 0 n (put_nonce c.chain_id ((nonce + 1) % 2 ^ 64) n).1 refl)
            λ _. send_and_wait-Only nonce fees to raw known

  with_fees-Only : (nonce : ℕ) (fees : ℕ × ℕ) → Only c 1 (with_fees node c key nonce fees)
  unfolding with_fees
  with_fees-Only nonce fees =
      lift_bind-Only c 1 (ok_or (parse_address c.contract) invalid_address)
        (broadcast node c key nonce fees)
        λ to known.
          broadcast-Only nonce fees to (ok_or-some (parse_address c.contract) invalid_address known)

  with_address-Only : (addr : Bytes) → Only c 1 (with_address node c key addr)
  unfolding with_address with_nonce
  with_address-Only addr =
      bind-Only c 0 1 (get_nonce node c.chain_id c.rpc_url addr) (with_nonce node c key)
        (get_nonce-Only c node c.chain_id c.rpc_url addr)
        λ nonce.
          bind-Only c 0 1 (ask (λ t. node.fetch_gas_params t c.rpc_url))
            (with_fees node c key nonce) (ask-Only c (λ t. node.fetch_gas_params t c.rpc_url))
            (with_fees-Only nonce)

  submit_once-Only : (addr : Option Bytes) → Only c 1 (submit_once node c key addr)
  unfolding submit_once
  submit_once-Only addr =
      lift_bind-Only c 1 (ok_or addr missing_key) (with_address node c key)
        λ a _. with_address-Only a

Sends-le : (c : Call) (j k : ℕ) {n n' : Net} → j ≤ k → Sends c j n n' → Sends c k n n'
Sends-le c j k h s = record {
  new = s.new;
  extended = s.extended;
  few = omega (arith, s.few);
  all_for = s.all_for;
}

-- An attempt's result, and the attempts after it where it failed.
retry_result :
    {A : Type 0} (c : Call) (k : ℕ) (r : Result A) (again : Result A × Net) {n n' : Net}
    → Sends c 1 n n'
    → Sends c k n' again.1
    → Sends c (suc k) n (elim r as (λ _. Result A × Net) [ ok a ↦ (ok a, n') | err e ↦ again ]).1
retry_result c k (ok a) again s t = Sends-le c 1 (suc k) (omega arith) s
retry_result c k (err e) again s t =
    Sends-le c (1 + k) (suc k) (omega arith) (Sends-trans c 1 k s t)

pub attempts-Only :
    (k : ℕ) (c : Call) (node : Node) (key : Bytes) (addr : Option Bytes)
    → Only c k (attempts k node c key addr)
unfolding attempts
attempts-Only zero c node key addr n = Sends-refl c 0 n n refl
attempts-Only (suc k) c node key addr n =
    let (r, n') = submit_once node c key addr n in
    let flushed = flush_nonce c.chain_id n' in
    let later = attempts-Only k c node key addr flushed in
    retry_result c k r (attempts k node c key addr flushed) (submit_once-Only c node key addr n)
      (record {
        new = later.new;
        extended = later.extended;
        few = later.few;
        all_for = later.all_for;
      })

-- Whatever the nodes answer, a submission sends at most three transactions, and each is to the
-- contract of the call, on its chain, with its data and value.
pub submit_with_retry-Sends :
    (node : Node) (c : Call) (key addr : Option Bytes) (n : Net)
    → Sends c max_retries n (submit_with_retry node c key addr n).1
unfolding submit_with_retry
submit_with_retry-Sends node c none addr n = Sends-refl c 3 n n refl
submit_with_retry-Sends node c (some key) addr n = attempts-Only 3 c node key addr n
