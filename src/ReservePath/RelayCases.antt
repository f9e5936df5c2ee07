-- ===== src/ReservePath/RelayCases.antt =====
-- The ways through `relay_one` of services/treasury/src/reserve_path.rs.
use web_3_bank.Prelude.{ℕ, Bool-cases, Option-cases, inl, inr, Option, none, some, List, Bytes}
use web_3_bank.Prelude.Dict.{get}
use web_3_bank.Eth.Hex.{decode_hex}
use web_3_bank.Eth.Submit.{Result, ok, err, missing_key, Logs}
use web_3_bank.ReservePath.ReserveOps.{
  ReserveRow, update_attestation, update_relayed, update_failed,
}
use web_3_bank.ReservePath.Calls.{Env, State, later, write, submit_bridge, bridge_in_call}
use web_3_bank.ReservePath.Relayer.{
  settle_relay, dispatch, adapter_of, with_attestation, on_answer, on_domain, on_source_tx,
  domain_of, first_ready, relay_one,
}

-- The relay of a row writes its attestation first, and then that it is relayed or that it failed: a
-- property of the table that the attestation keeps becomes the one that the last query leaves.
module _ (env : Env) (row : ReserveRow) (P Q : List ReserveRow → Type 0)
    (unsettled : (rows : List ReserveRow) → P rows → Q rows)
    (attested : (m a : Bytes) (now : ℕ) (rows : List ReserveRow)
      → P rows
      → P (update_attestation row.op_id m a now rows))
    (relayed : (tx : Bytes) (now : ℕ) (rows : List ReserveRow)
      → P rows
      → Q (update_relayed row.op_id tx now rows))
    (failed : (now : ℕ) (rows : List ReserveRow)
      → P rows
      → Q (update_failed row.op_id now rows)) where
  settle_relay-cases :
      (r : Result (Bytes × Logs)) (s : State)
      → P s.reserve_ops
      → Q (settle_relay env row.op_id r s).reserve_ops
  unfolding settle_relay
  settle_relay-cases (ok (tx, logs)) s p = elim (Bool-cases (env.database_up s.net.tick)) [
    | inl up ↦ rw up (relayed tx (env.database_now s.net.tick) s.reserve_ops p)
    | inr down ↦ rw down (unsettled s.reserve_ops p)
  ]
  settle_relay-cases (err e) s p = elim (Bool-cases (env.database_up s.net.tick)) [
    | inl up ↦ rw up (failed (env.database_now s.net.tick) s.reserve_ops p)
    | inr down ↦ rw down (unsettled s.reserve_ops p)
  ]

  dispatch-cases :
      (rpc adapter : Bytes) (m a : Option Bytes) (s : State)
      → P s.reserve_ops
      → Q (dispatch env row rpc adapter m a s).reserve_ops
  unfolding dispatch settle_relay
  dispatch-cases rpc adapter none a s p = settle_relay-cases (err missing_key) s p
  dispatch-cases rpc adapter (some m) none s p = settle_relay-cases (err missing_key) s p
  dispatch-cases rpc adapter (some m) (some a) s p =
      let (r, net) =
        submit_bridge env (bridge_in_call env row.dest_chain_id rpc adapter m a) s.net in
      settle_relay-cases r (record s { net = net }) p

  with_attestation-cases :
      (message attestation : Bytes) (s : State)
      → P s.reserve_ops
      → Q (with_attestation env row message attestation s).reserve_ops
  unfolding with_attestation
  with_attestation-cases message attestation s p =
      elim (Option-cases (get row.dest_chain_id env.rpc_urls)) [
        | inl no_rpc ↦ rw (no_rpc, with_attestation) (unsettled s.reserve_ops p)
        | inr (rpc, has_rpc) ↦ elim (Option-cases (adapter_of env row.dest_chain_id)) [
          | inl no_adapter ↦ rw (has_rpc, no_adapter, with_attestation) (unsettled s.reserve_ops p)
          | inr (adapter, has_adapter) ↦
              rw (has_rpc, has_adapter, with_attestation)
                (dispatch-cases rpc adapter (decode_hex message) (decode_hex attestation) s p)
        ]
      ]

  on_answer-cases :
      (answer : Option (Bytes × Bytes)) (s : State)
      → P s.reserve_ops
      → Q (on_answer env row answer s).reserve_ops
  unfolding on_answer
  on_answer-cases none s p = unsettled s.reserve_ops p
  on_answer-cases (some (message, attestation)) s p =
      with_attestation-cases message attestation
        (write env (update_attestation row.op_id message attestation) s) noted
    where
      noted : P (write env (update_attestation row.op_id message attestation) s).reserve_ops
      noted = elim (Bool-cases (env.database_up s.net.tick)) [
        | inl up ↦
            rw up (attested message attestation (env.database_now s.net.tick) s.reserve_ops p)
        | inr down ↦ rw down p
      ]

  on_domain-cases :
      (tx : Bytes) (domain : Option ℕ) (s : State)
      → P s.reserve_ops
      → Q (on_domain env row tx domain s).reserve_ops
  unfolding on_domain
  on_domain-cases tx none s p = unsettled s.reserve_ops p
  on_domain-cases tx (some domain) s p =
      on_answer-cases (first_ready (env.circle s.net.tick domain tx)) (later s) p

  on_source_tx-cases :
      (tx : Option Bytes) (s : State) → P s.reserve_ops → Q (on_source_tx env row tx s).reserve_ops
  unfolding on_source_tx
  on_source_tx-cases none s p = unsettled s.reserve_ops p
  on_source_tx-cases (some tx) s p = on_domain-cases tx (domain_of env row.source_chain_id) s p

  pub relay_one-cases : (s : State) → P s.reserve_ops → Q (relay_one env row s).reserve_ops
  unfolding relay_one
  relay_one-cases = on_source_tx-cases row.source_tx_hash
