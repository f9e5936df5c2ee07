-- ===== src/ReservePath/Transactions.antt =====
-- The transactions of services/treasury/src/reserve_path.rs.
use web_3_bank.Prelude.{
  ℕ, ◌≤◌, ◌≡◌, refl, false, Option-cases, inl, inr, Option, none, some, Bytes, codes,
}
use web_3_bank.Prelude.Dict.{get}
use web_3_bank.Rebalance.{
  Op, RebalanceOpDecision, submit, skip_insufficient_depth, skip_op_in_flight,
  evaluate_rebalance_op, submit_conditions,
}
use web_3_bank.Eth.Hex.{decode_hex}
use web_3_bank.Eth.Submit.{Net, Call, Result, ok, err, Logs}
use web_3_bank.Eth.Submit.Sends.{Sends, Sends-refl, attempts-Only}
use web_3_bank.ReservePath.ReserveOps.{ReserveRow, update_attestation, insert_reserve_op}
use web_3_bank.ReservePath.Calls.{
  Env, State, later, write, submit_bridge, bridge_reserve_call, bridge_in_call,
}
use web_3_bank.ReservePath.Planner.{
  reserve_op_id, settle_reserve, commit_reserve, on_reserve_decision, reserve_in_flight_now,
  with_reserve_depth, bridge_op,
}
use web_3_bank.ReservePath.Relayer.{
  settle_relay, on_domain, on_source_tx, dispatch, adapter_of, with_attestation, on_answer,
  domain_of, first_ready, relay_one,
}

submit_bridge-Sends :
    (env : Env) (call : Call) (n : Net) → Sends call 3 n (submit_bridge env call n).1
unfolding submit_bridge
submit_bridge-Sends env call n = elim (Option-cases env.relayer_key) [
  | inl keyless ↦ rw keyless (Sends-refl call 3 n n refl)
  | inr (key, keyed) ↦ elim (Option-cases env.relayer_address) [
    | inl unknown ↦ rw (keyed, unknown) (Sends-refl call 3 n n refl)
    | inr (addr, known) ↦ rw (keyed, known) (attempts-Only 3 call env.node key (some addr) n)
  ]
]

-- What was sent is the same after a query.
moved_on :
    (call : Call) (n : Net) (sent : Net) (after : Net)
    → after.sent ≡ sent.sent
    → Sends call 3 n sent
    → Sends call 3 n after
moved_on call n sent after same t = record {
  new = t.new;
  extended = rw same t.extended;
  few = t.few;
  all_for = t.all_for;
}

-- How the relay of a row may end.
pub data RelayEnd (env : Env) (row : ReserveRow) (s s' : State) : Type 0 where
  unsent : s'.net.sent ≡ s.net.sent → RelayEnd env row s s'
  relayed :
      (tx message attestation rpc adapter m a : Bytes) (domain : ℕ)
      → row.source_tx_hash ≡ some tx
      → domain_of env row.source_chain_id ≡ some domain
      → first_ready (env.circle s.net.tick domain tx) ≡ some (message, attestation)
      → get row.dest_chain_id env.rpc_urls ≡ some rpc
      → adapter_of env row.dest_chain_id ≡ some adapter
      → decode_hex message ≡ some m
      → decode_hex attestation ≡ some a
      → Sends (bridge_in_call env row.dest_chain_id rpc adapter m a) 3 s.net s'.net
      → RelayEnd env row s s'

settle_relay-sent :
    (env : Env) (id : Bytes) (r : Result (Bytes × Logs)) (s : State)
    → (settle_relay env id r s).net.sent ≡ s.net.sent
unfolding settle_relay
settle_relay-sent env id (ok (tx, logs)) s = refl
settle_relay-sent env id (err e) s = refl

module _ (env : Env) (row : ReserveRow) (s : State) (tx : Bytes) (domain : ℕ)
    (has_tx : row.source_tx_hash ≡ some tx)
    (has_domain : domain_of env row.source_chain_id ≡ some domain) where
  dispatch-RelayEnd :
      (message attestation rpc adapter : Bytes) (m a : Option Bytes) (s' : State)
      → first_ready (env.circle s.net.tick domain tx) ≡ some (message, attestation)
      → get row.dest_chain_id env.rpc_urls ≡ some rpc
      → adapter_of env row.dest_chain_id ≡ some adapter
      → decode_hex message ≡ m
      → decode_hex attestation ≡ a
      → s'.net.sent ≡ s.net.sent
      → RelayEnd env row s (dispatch env row rpc adapter m a s')
  unfolding dispatch
  dispatch-RelayEnd message attestation rpc adapter none a s' answered has_rpc has_adapter p q e =
      unsent e
  dispatch-RelayEnd message attestation rpc adapter (some m) none s' answered has_rpc has_adapter p
        q e =
      unsent e
  dispatch-RelayEnd message attestation rpc adapter (some m) (some a) s' answered has_rpc
        has_adapter p q e =
      let call = bridge_in_call env row.dest_chain_id rpc adapter m a in
      let t = submit_bridge-Sends env call s'.net in
      let (r, net) = submit_bridge env call s'.net in
      relayed tx message attestation rpc adapter m a domain has_tx has_domain answered has_rpc
        has_adapter p q
        (moved_on call s.net net (settle_relay env row.op_id r (record s' { net = net })).net
          (settle_relay-sent env row.op_id r (record s' { net = net }))
          (record { new = t.new; extended = rw⁻¹ e t.extended; few = t.few; all_for = t.all_for }))

  with_attestation-RelayEnd :
      (message attestation : Bytes) (s' : State)
      → first_ready (env.circle s.net.tick domain tx) ≡ some (message, attestation)
      → s'.net.sent ≡ s.net.sent
      → RelayEnd env row s (with_attestation env row message attestation s')
  unfolding with_attestation
  with_attestation-RelayEnd message attestation s' answered e =
      elim (Option-cases (get row.dest_chain_id env.rpc_urls)) [
        | inl no_rpc ↦ rw (no_rpc, with_attestation) (unsent e)
        | inr (rpc, has_rpc) ↦ elim (Option-cases (adapter_of env row.dest_chain_id)) [
          | inl no_adapter ↦ rw (has_rpc, no_adapter, with_attestation) (unsent e)
          | inr (adapter, has_adapter) ↦
              rw (has_rpc, has_adapter, with_attestation)
                (dispatch-RelayEnd message attestation rpc adapter (decode_hex message)
                  (decode_hex attestation) s' answered has_rpc has_adapter refl refl e)
        ]
      ]

  on_answer-RelayEnd :
      (answer : Option (Bytes × Bytes))
      → first_ready (env.circle s.net.tick domain tx) ≡ answer
      → RelayEnd env row s (on_answer env row answer (later s))
  unfolding on_answer
  on_answer-RelayEnd none answered = unsent refl
  on_answer-RelayEnd (some (message, attestation)) answered =
      with_attestation-RelayEnd message attestation
        (write env (update_attestation row.op_id message attestation) (later s)) answered refl

module _ (env : Env) (row : ReserveRow) (s : State) where
  on_domain-RelayEnd :
      (tx : Bytes) (domain : Option ℕ)
      → row.source_tx_hash ≡ some tx
      → domain_of env row.source_chain_id ≡ domain
      → RelayEnd env row s (on_domain env row tx domain s)
  unfolding on_domain
  on_domain-RelayEnd tx none has_tx e = unsent refl
  on_domain-RelayEnd tx (some domain) has_tx e =
      on_answer-RelayEnd env row s tx domain has_tx e
        (first_ready (env.circle s.net.tick domain tx)) refl

  on_source_tx-RelayEnd :
      (tx : Option Bytes) → row.source_tx_hash ≡ tx → RelayEnd env row s (on_source_tx env row tx s)
  unfolding on_source_tx
  on_source_tx-RelayEnd none e = unsent refl
  on_source_tx-RelayEnd (some tx) e =
      on_domain-RelayEnd tx (domain_of env row.source_chain_id) e refl

-- Whatever the network, Circle and the database answer, the relay of a row either sends nothing, or
-- the row has a source transaction, Circle's first message for it is ready in the domain of the
-- row's source chain, the destination has an RPC URL and an adapter, and the message and the
-- attestation decode; then at most three transactions are sent, each the `bridgeIn` call of that
-- adapter, on that chain, with what was decoded.
pub relay_one-RelayEnd :
    (env : Env) (row : ReserveRow) (s : State) → RelayEnd env row s (relay_one env row s)
unfolding relay_one
relay_one-RelayEnd env row s = on_source_tx-RelayEnd env row s row.source_tx_hash refl

-- How the round of an operation of the planner may end.
pub data BridgeEnd (env : Env) (op : Op) (s s' : State) : Type 0 where
  unsent : s'.net.sent ≡ s.net.sent → BridgeEnd env op s s'
  bridged :
      (rpc bank : Bytes) (depth : ℕ)
      → get op.source env.rpc_urls ≡ some rpc
      → get op.source env.contract_addresses ≡ some bank
      → env.node.fetch_u256_view s.net.tick rpc bank env.reserve_depth_selector ≡ some depth
      → op.amount ≤ depth
      → reserve_in_flight_now env op (later s) ≡ false
      → Sends (bridge_reserve_call env op.source rpc bank op.dest op.amount) 3 s.net s'.net
      → BridgeEnd env op s s'

settle_reserve-sent :
    (env : Env) (id : Bytes) (r : Result (Bytes × Logs)) (s : State)
    → (settle_reserve env id r s).net.sent ≡ s.net.sent
unfolding settle_reserve
settle_reserve-sent env id (ok (tx, logs)) s = refl
settle_reserve-sent env id (err e) s = refl

module _ (env : Env) (op : Op) (rpc bank : Bytes) where
  commit_reserve-Sends :
      (s : State)
      → Sends
          (bridge_reserve_call env op.source rpc bank op.dest op.amount)
          3
          s.net
          (commit_reserve env op rpc bank s).net
  unfolding commit_reserve
  commit_reserve-Sends s =
      let id = reserve_op_id op (env.ts_ms s.net.tick) in
      let s' = write env (insert_reserve_op id op.source op.dest op.amount (codes "CCTP")) s in
      let call = bridge_reserve_call env op.source rpc bank op.dest op.amount in
      let t = submit_bridge-Sends env call s'.net in
      let (r, net) = submit_bridge env call s'.net in
      moved_on call s.net net (settle_reserve env id r (record s' { net = net })).net
        (settle_reserve-sent env id r (record s' { net = net }))
        (record { new = t.new; extended = t.extended; few = t.few; all_for = t.all_for })

  on_reserve_decision-BridgeEnd :
      (d : RebalanceOpDecision) (depth : ℕ) (s : State)
      → get op.source env.rpc_urls ≡ some rpc
      → get op.source env.contract_addresses ≡ some bank
      → env.node.fetch_u256_view s.net.tick rpc bank env.reserve_depth_selector ≡ some depth
      → evaluate_rebalance_op depth op.amount (reserve_in_flight_now env op (later s)) ≡ d
      → BridgeEnd env op s (on_reserve_decision env op rpc bank d (later (later s)))
  unfolding on_reserve_decision
  on_reserve_decision-BridgeEnd submit depth s has_rpc has_bank read e =
      let (covered, free) =
        submit_conditions depth op.amount (reserve_in_flight_now env op (later s)) e in
      let t = commit_reserve-Sends (later (later s)) in
      bridged rpc bank depth has_rpc has_bank read covered free
        (record { new = t.new; extended = t.extended; few = t.few; all_for = t.all_for })
  on_reserve_decision-BridgeEnd skip_insufficient_depth depth s has_rpc has_bank read e =
      unsent refl
  on_reserve_decision-BridgeEnd skip_op_in_flight depth s has_rpc has_bank read e = unsent refl

  with_reserve_depth-BridgeEnd :
      (d : Option ℕ) (s : State)
      → get op.source env.rpc_urls ≡ some rpc
      → get op.source env.contract_addresses ≡ some bank
      → env.node.fetch_u256_view s.net.tick rpc bank env.reserve_depth_selector ≡ d
      → BridgeEnd env op s (with_reserve_depth env op rpc bank d (later s))
  unfolding with_reserve_depth
  with_reserve_depth-BridgeEnd none s has_rpc has_bank read = unsent refl
  with_reserve_depth-BridgeEnd (some depth) s has_rpc has_bank read =
      on_reserve_decision-BridgeEnd
        (evaluate_rebalance_op depth op.amount (reserve_in_flight_now env op (later s))) depth s
        has_rpc has_bank read refl

-- Whatever the network and the database answer, the round of an operation of the planner either sends
-- nothing, or the live depth of its source's reserve covers it and no operation between its chains
-- was found in flight; then at most three transactions are sent, each the `bridgeReserve` call of the
-- source's bank contract for the destination and the whole amount, whatever the contract's cap for
-- reserve bridges.
pub bridge_op-BridgeEnd :
    (env : Env) (op : Op) (s : State) → BridgeEnd env op s (bridge_op env op s)
unfolding bridge_op
bridge_op-BridgeEnd env op s = elim (Option-cases (get op.source env.rpc_urls)) [
  | inl no_rpc ↦ rw (no_rpc, bridge_op) (unsent refl)
  | inr (rpc, has_rpc) ↦ elim (Option-cases (get op.source env.contract_addresses)) [
    | inl no_bank ↦ rw (has_rpc, no_bank, bridge_op) (unsent refl)
    | inr (bank, has_bank) ↦
        rw (has_rpc, has_bank, bridge_op)
          (with_reserve_depth-BridgeEnd env op rpc bank
            (env.node.fetch_u256_view s.net.tick rpc bank env.reserve_depth_selector) s has_rpc
            has_bank refl)
  ]
]
