-- ===== src/ReservePath/Steps.antt =====
-- The planner's rounds of services/treasury/src/reserve_path.rs on the table, and the program's loops
-- as steps.
use web_3_bank.Prelude.{
  ℕ, ◌+◌, ◌≡◌, ◌≢◌, refl, true, false, Bool-cases, Option-cases, inl, inr, Option, none, some, List,
  Bytes, codes,
}
use web_3_bank.Prelude.Dict.{get}
use web_3_bank.Rebalance.{
  Op, RebalanceOpDecision, submit, skip_insufficient_depth, skip_op_in_flight,
  evaluate_rebalance_op,
}
use web_3_bank.Eth.Messages.{extract_reserve_bridge_initiated_message_id}
use web_3_bank.Eth.Submit.{Result, ok, err, Logs}
use web_3_bank.ReservePath.ReserveOps.{
  ReserveStatus, pending, submitted, relayed, completed, failed, is_in_flight, reserve_op_exists,
  insert_reserve_op, update_submitted, update_failed,
}
use web_3_bank.ReservePath.Calls.{Env, State, later, write, submit_bridge, bridge_reserve_call}
use web_3_bank.ReservePath.Planner.{
  reserve_op_id, settle_reserve, commit_reserve, on_reserve_decision, reserve_in_flight_now,
  with_reserve_depth, bridge_op,
}
use web_3_bank.ReservePath.Relayer.{relayer_round}
use web_3_bank.ReservePath.Watcher.{run_watcher_cycle}
use web_3_bank.ReservePath.Table.{status_of, IsUnique}
use web_3_bank.ReservePath.Moves.{
  submits, relays, fails, completes, exists-status, Moves, stays, then_, Follows, Advances,
  Advances-refl, Advances-trans, insert-Advances,
}
use web_3_bank.ReservePath.Turns.{update-Turns, write-Turns}
use web_3_bank.ReservePath.Relays.{relayer_round-Advances}
use web_3_bank.ReservePath.Lifecycle.{run_watcher_cycle-Advances}

-- The row of the operation that a round of the planner may start, at the time when it would, is new.
abbrev pub IsFresh : Env → Op → State → Type 0
IsFresh env op s =
    reserve_op_exists (reserve_op_id op (env.ts_ms (s.net.tick + 1 + 1))) s.reserve_ops ≡ false

module _ (env : Env) (op : Op) (rpc bank : Bytes) where
  settle_reserve-Advances :
      (id : Bytes) (r : Result (Bytes × Logs)) (s : State)
      → ((a : ReserveStatus) → status_of id s.reserve_ops ≡ some a → a ≡ pending)
      → IsUnique s.reserve_ops
      → Advances s.reserve_ops (settle_reserve env id r s).reserve_ops
  unfolding settle_reserve is_in_flight
  settle_reserve-Advances id (ok (tx, logs)) s is u =
      let message =
        extract_reserve_bridge_initiated_message_id env.reserve_bridge_initiated_topic logs in
      let t = write-Turns env id (update_submitted id tx message) s u (
        update-Turns id
          (λ r. record r {
            status = submitted;
            source_tx_hash = some tx;
            bridge_message_id = message;
            updated_at = env.database_now s.net.tick;
          })
          (λ _. submitted) s.reserve_ops (λ r. refl) (λ r. refl)
          (λ b was. rw (is b was) (then_ stays submits)) u) in
      t.advances
  settle_reserve-Advances id (err e) s is u =
      let t = write-Turns env id (update_failed id) s u (
        update-Turns id
          (λ r. record r { status = failed; updated_at = env.database_now s.net.tick })
          (λ _. failed) s.reserve_ops (λ r. refl) (λ r. refl)
          (λ b was. rw (is b was) (then_ stays (fails refl))) u) in
      t.advances

  commit_reserve-Advances :
      (s : State)
      → reserve_op_exists (reserve_op_id op (env.ts_ms s.net.tick)) s.reserve_ops ≡ false
      → IsUnique s.reserve_ops
      → Advances s.reserve_ops (commit_reserve env op rpc bank s).reserve_ops
  unfolding commit_reserve
  commit_reserve-Advances s fresh u =
      let id = reserve_op_id op (env.ts_ms s.net.tick) in
      let s' = write env (insert_reserve_op id op.source op.dest op.amount (codes "CCTP")) s in
      let (r, net) =
        submit_bridge env (bridge_reserve_call env op.source rpc bank op.dest op.amount) s'.net in
      let (one, is) = noted in
      Advances-trans s.reserve_ops s'.reserve_ops
        (settle_reserve env id r (record s' { net = net })).reserve_ops one
        (settle_reserve-Advances id r (record s' { net = net }) is one.unique)
    where
      noted :
          Advances s.reserve_ops
            (write env
              (insert_reserve_op
                (reserve_op_id op (env.ts_ms s.net.tick))
                op.source
                op.dest
                op.amount
                (codes "CCTP"))
              s).reserve_ops
          × ((a : ReserveStatus)
              → status_of
                  (reserve_op_id op (env.ts_ms s.net.tick))
                  (write env
                    (insert_reserve_op
                      (reserve_op_id op (env.ts_ms s.net.tick))
                      op.source
                      op.dest
                      op.amount
                      (codes "CCTP"))
                    s).reserve_ops
                ≡ some a
              → a ≡ pending)
      noted =
          let id = reserve_op_id op (env.ts_ms s.net.tick) in
          let now = env.database_now s.net.tick in
          let (one, is) =
            insert-Advances id op.source op.dest op.amount (codes "CCTP") now s.reserve_ops fresh
              u in
          elim (Bool-cases (env.database_up s.net.tick)) [
            | inl up ↦ rw up (one, λ a e. cc)
            | inr down ↦ rw down (
              Advances-refl s.reserve_ops u,
              λ a e. let no = exists-status id s.reserve_ops fresh in cc,
            )
          ]

  with_reserve_depth-Advances :
      (d : Option ℕ) (s : State)
      → reserve_op_exists (reserve_op_id op (env.ts_ms (s.net.tick + 1))) s.reserve_ops ≡ false
      → IsUnique s.reserve_ops
      → Advances s.reserve_ops (with_reserve_depth env op rpc bank d s).reserve_ops
  unfolding with_reserve_depth on_reserve_decision
  with_reserve_depth-Advances none s fresh u = Advances-refl s.reserve_ops u
  with_reserve_depth-Advances (some depth) s fresh u =
      decided (evaluate_rebalance_op depth op.amount (reserve_in_flight_now env op s))
    where
      decided :
          (d : RebalanceOpDecision)
          → Advances s.reserve_ops (on_reserve_decision env op rpc bank d (later s)).reserve_ops
      decided submit = commit_reserve-Advances (later s) fresh u
      decided skip_insufficient_depth = Advances-refl s.reserve_ops u
      decided skip_op_in_flight = Advances-refl s.reserve_ops u

bridge_op-Advances :
    (env : Env) (op : Op) (s : State)
    → IsFresh env op s
    → IsUnique s.reserve_ops
    → Advances s.reserve_ops (bridge_op env op s).reserve_ops
unfolding bridge_op
bridge_op-Advances env op s fresh u = elim (Option-cases (get op.source env.rpc_urls)) [
  | inl no_rpc ↦ rw (no_rpc, bridge_op) (Advances-refl s.reserve_ops u)
  | inr (rpc, has_rpc) ↦ elim (Option-cases (get op.source env.contract_addresses)) [
    | inl no_bank ↦ rw (has_rpc, no_bank, bridge_op) (Advances-refl s.reserve_ops u)
    | inr (bank, has_bank) ↦
        rw (has_rpc, has_bank, bridge_op)
          (with_reserve_depth-Advances env op rpc bank
            (env.node.fetch_u256_view s.net.tick rpc bank env.reserve_depth_selector) (later s)
            fresh u)
  ]
]

-- A round of one of the three loops, or a change of the sets of chains by the fourth.
pub data Step (env : Env) : State → State → Type 0 where
  planned : {s : State} (op : Op) → IsFresh env op s → Step env s (bridge_op env op s)
  relay_round : {s : State} → Step env s (relayer_round env s)
  watched : {s : State} (stuck_secs : ℕ) → Step env s (run_watcher_cycle env stuck_secs s)
  told :
      {s : State} (active decommissioned : List ℕ)
      → Step env s (record s { active_chains = active; decommissioned_chains = decommissioned })
  waited : {s : State} → Step env s (later s)

pub data Run (env : Env) (s : State) : State → Type 0 where
  here : Run env s s
  next : {t u : State} → Run env s t → Step env t u → Run env s u

Step-Advances :
    (env : Env) {s t : State}
    → Step env s t
    → IsUnique s.reserve_ops
    → Advances s.reserve_ops t.reserve_ops
Step-Advances env {s} (planned op fresh) u = bridge_op-Advances env op s fresh u
Step-Advances env {s} relay_round u = relayer_round-Advances env s u
Step-Advances env {s} (watched secs) u = run_watcher_cycle-Advances env secs s u
Step-Advances env {s} (told active decommissioned) u = Advances-refl s.reserve_ops u
Step-Advances env {s} waited u = Advances-refl s.reserve_ops u

-- The three loops, one round at a time, whatever the network, Circle and the database answer, refine
-- the lifecycle of an operation, if each round of the planner that starts an operation finds its
-- identifier new: no row is lost, the identifiers stay different, and every row's status moves from
-- pending to submitted to relayed, or from one of these to failed, or to completed.
pub Run-Advances :
    (env : Env) {s t : State}
    → IsUnique s.reserve_ops
    → Run env s t
    → Advances s.reserve_ops t.reserve_ops
Run-Advances env {s} u here = Advances-refl s.reserve_ops u
Run-Advances env {s} {t} u (next {t = m} run step) =
    let before = Run-Advances env u run in
    Advances-trans s.reserve_ops m.reserve_ops t.reserve_ops before
      (Step-Advances env step before.unique)

flying-ne-completed : (a : ReserveStatus) → is_in_flight a ≡ true → a ≢ completed
unfolding is_in_flight
flying-ne-completed pending h e = cc
flying-ne-completed submitted h e = cc
flying-ne-completed relayed h e = cc
flying-ne-completed completed h e = cc
flying-ne-completed failed h e = cc

completed_stays : (a b : ReserveStatus) → Moves a b → a ≡ completed → b ≡ completed
completed_stays a b stays e = e
completed_stays a b (then_ {b = c} before submits) e =
    let still = completed_stays a c before e in cc
completed_stays a b (then_ {b = c} before relays) e = let still = completed_stays a c before e in cc
completed_stays a b (then_ {b = c} before (fails flying)) e =
    absurd (flying-ne-completed c flying (completed_stays a c before e))
completed_stays a b (then_ before completes) e = refl

Follows-completed :
    (o p : Option ReserveStatus) → Follows o p → o ≡ some completed → p ≡ some completed
Follows-completed none p f e = cc
Follows-completed (some a) none f e = absurd f
Follows-completed (some a) (some b) f e =
    let is : a ≡ completed = cc in let still = completed_stays a b f is in rw still refl

-- An operation that is completed stays completed, whatever rounds of the three loops follow and
-- whatever is answered to them, if each round of the planner that starts an operation finds its
-- identifier new.
pub Run-completed :
    (env : Env) {s t : State} (id : Bytes)
    → IsUnique s.reserve_ops
    → Run env s t
    → status_of id s.reserve_ops ≡ some completed
    → status_of id t.reserve_ops ≡ some completed
Run-completed env {s} {t} id u run is =
    let a = Run-Advances env u run in
    Follows-completed (status_of id s.reserve_ops) (status_of id t.reserve_ops) (a.follows id) is
