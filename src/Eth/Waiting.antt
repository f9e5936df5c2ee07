-- ===== src/Eth/Waiting.antt =====
-- How the waiting for a receipt in services/treasury/src/eth/rpc.rs ends.
use web_3_bank.Prelude.{
  ℕ, zero, suc, ◌+◌, ◌*◌, ◌/◌, ◌<◌, ◌≤◌, ◌≡◌, refl, sym, Bool, true, false, not, Bool-cases, Option,
  none, some, inl, inr, ◌==◌, ltb, ltb→lt, Bytes, ◌===◌, ===→eq, if◌then◌else◌, arith,
}
use web_3_bank.Eth.Submit.{http, tx_reverted, tx_timeout, Result, ok, err, Logs}
use web_3_bank.Eth.Receipts.{
  Poll, unanswered, absent, found, succeeded, failed, by_status, by_poll, wait_loop,
  wait_for_receipt_logs,
}

-- An answer that settles nothing.
abbrev is_final : Bytes → Bool
is_final status = if status === succeeded then true else status === failed

abbrev pub is_open : Poll → Bool
is_open unanswered = false
is_open absent = true
is_open (found none logs) = true
is_open (found (some status) logs) = not (is_final status)

-- The rounds from one time to another settle nothing.
abbrev pub Open : (ℕ → Poll) → ℕ → ℕ → Type 0
Open polls t k = (j : ℕ) → t ≤ j → j < k → is_open (polls j) ≡ true

-- How the waiting may end.
pub data WaitEnd (polls : ℕ → Poll) (clock : ℕ → ℕ) (tx : Bytes) (deadline t : ℕ)
    : Result Logs → Type 0 where
  confirmed :
      (k : ℕ) (logs : Logs)
      → t ≤ k
      → Open polls t k
      → clock k ≤ deadline
      → polls k ≡ found (some succeeded) logs
      → WaitEnd polls clock tx deadline t (ok logs)
  reverted :
      (k : ℕ) (logs : Logs)
      → t ≤ k
      → Open polls t k
      → clock k ≤ deadline
      → polls k ≡ found (some failed) logs
      → WaitEnd polls clock tx deadline t (err (tx_reverted tx))
  unreachable :
      (k : ℕ)
      → t ≤ k
      → Open polls t k
      → clock k ≤ deadline
      → polls k ≡ unanswered
      → WaitEnd polls clock tx deadline t (err http)
  timed_out :
      (k : ℕ)
      → t ≤ k
      → Open polls t k
      → deadline < clock k
      → WaitEnd polls clock tx deadline t (err (tx_timeout tx))

-- The loop's result, and how it ended.
pub record Ends (polls : ℕ → Poll) (clock : ℕ → ℕ) (tx : Bytes) (deadline t : ℕ)
    (o : Option (Result Logs)) : Type 0 where
  pub result : Result Logs
  pub returned : o ≡ some result
  pub ended : WaitEnd polls clock tx deadline t result

module _ (polls : ℕ → Poll) (clock : ℕ → ℕ) (tx : Bytes) (deadline : ℕ) where
  none_before : (t : ℕ) → Open polls t t
  none_before t j low high = absurd (omega arith)

  one_more : (t k : ℕ) → is_open (polls t) ≡ true → Open polls (t + 1) k → Open polls t k
  one_more t k now later j low high = elim (Bool-cases (j == t)) [
    | inl same ↦ let at : j ≡ t = ground arith in rw at now
    | inr other ↦ let above : t + 1 ≤ j = ground arith in later j above high
  ]

  next_round :
      (t : ℕ) (r : Result Logs)
      → is_open (polls t) ≡ true
      → WaitEnd polls clock tx deadline (t + 1) r
      → WaitEnd polls clock tx deadline t r
  next_round t r now (confirmed k logs low before time e) =
      confirmed k logs (omega arith) (one_more t k now before) time e
  next_round t r now (reverted k logs low before time e) =
      reverted k logs (omega arith) (one_more t k now before) time e
  next_round t r now (unreachable k low before time e) =
      unreachable k (omega arith) (one_more t k now before) time e
  next_round t r now (timed_out k low before time) =
      timed_out k (omega arith) (one_more t k now before) time

  -- A round that settles the matter, or leaves it to the later ones.
  status_round :
      (t : ℕ) (status : Bytes) (logs : Logs) (rest : Option (Result Logs))
      → polls t ≡ found (some status) logs
      → clock t ≤ deadline
      → (is_open (polls t) ≡ true → Ends polls clock tx deadline (t + 1) rest)
      → Ends polls clock tx deadline t (by_status tx (some status) logs rest)
  unfolding by_status
  status_round t status logs rest e time later = elim (Bool-cases (status === succeeded)) [
    | inl good ↦
        let same : status ≡ succeeded = ===→eq status succeeded good in
        rw good (record {
          result = ok logs;
          returned = refl;
          ended = confirmed t logs (omega arith) (none_before t) time (rw (sym same) e);
        })
    | inr not_good ↦ elim (Bool-cases (status === failed)) [
      | inl bad ↦
          let same : status ≡ failed = ===→eq status failed bad in
          rw (not_good, bad)
            (record {
              result = err (tx_reverted tx);
              returned = refl;
              ended = reverted t logs (omega arith) (none_before t) time (rw (sym same) e);
            })
      | inr other ↦
          let open_now : is_open (polls t) ≡ true = rw (e, not_good, other) refl in
          let r = later open_now in
          rw (not_good, other)
            (record {
              result = r.result;
              returned = r.returned;
              ended = next_round t r.result open_now r.ended;
            })
    ]
  ]

  round :
      (t : ℕ) (p : Poll) (rest : Option (Result Logs))
      → polls t ≡ p
      → clock t ≤ deadline
      → (is_open (polls t) ≡ true → Ends polls clock tx deadline (t + 1) rest)
      → Ends polls clock tx deadline t (by_poll tx p rest)
  unfolding by_poll by_status
  round t unanswered rest e time later = record {
    result = err http;
    returned = refl;
    ended = unreachable t (omega arith) (none_before t) time e;
  }
  round t absent rest e time later =
      let open_now : is_open (polls t) ≡ true = rw e refl in
      let r = later open_now in
      record {
        result = r.result;
        returned = r.returned;
        ended = next_round t r.result open_now r.ended;
      }
  round t (found none logs) rest e time later =
      let open_now : is_open (polls t) ≡ true = rw e refl in
      let r = later open_now in
      record {
        result = r.result;
        returned = r.returned;
        ended = next_round t r.result open_now r.ended;
      }
  round t (found (some status) logs) rest e time later =
      status_round t status logs rest e time later

  -- A round that is in time, or too late.
  timed_round :
      (t : ℕ) (rest : Option (Result Logs))
      → (clock t ≤ deadline → Ends polls clock tx deadline (t + 1) rest)
      → Ends polls clock tx deadline t
          (if ltb deadline (clock t) then some (err (tx_timeout tx)) else by_poll tx (polls t) rest)
  timed_round t rest later = elim (Bool-cases (ltb deadline (clock t))) [
    | inl late ↦ rw late (record {
      result = err (tx_timeout tx);
      returned = refl;
      ended = timed_out t (omega arith) (none_before t) (ltb→lt deadline (clock t) late);
    })
    | inr early ↦
        let time : clock t ≤ deadline = ground arith in
        rw early (round t (polls t) rest refl time (λ now. later time))
  ]

  wait_loop-Ends :
      ((t : ℕ) → clock t + 500 ≤ clock (t + 1))
      → (rounds t : ℕ) → deadline < clock t + 500 * rounds
      → Ends polls clock tx deadline t (wait_loop polls clock tx deadline (suc rounds) t)
  unfolding wait_loop
  wait_loop-Ends sleeps zero t enough = timed_round t none (λ time. absurd (omega arith))
  wait_loop-Ends sleeps (suc rounds) t enough =
      timed_round t (wait_loop polls clock tx deadline (suc rounds) (t + 1)) (λ time.
        let slept = sleeps t in wait_loop-Ends sleeps rounds (t + 1) (omega (arith, slept)))

-- The waiting for a receipt ends, if a round takes 500 milliseconds at least: with the logs of the
-- first answer that settles the matter, if that is a success in time; with an error if it is a
-- revert, or an answer that cannot be read; and with a timeout if a round begins past the deadline
-- and none before it settled the matter.
pub wait_for_receipt_logs-Ends :
    (polls : ℕ → Poll) (clock : ℕ → ℕ) (tx : Bytes) (timeout t : ℕ)
    → ((j : ℕ) → clock j + 500 ≤ clock (j + 1))
    → Ends polls clock tx (clock t + timeout) t (wait_for_receipt_logs polls clock tx timeout t)
unfolding wait_for_receipt_logs
wait_for_receipt_logs-Ends polls clock tx timeout t sleeps =
    wait_loop-Ends polls clock tx (clock t + timeout) sleeps (timeout / 500 + 1) t (omega arith)
