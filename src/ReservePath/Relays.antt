-- ===== src/ReservePath/Relays.antt =====
-- The relayer of services/treasury/src/reserve_path.rs as moves of the lifecycle.
use web_3_bank.Prelude.{ℕ, ◌≡◌, refl, true, false, Bool-cases, inl, inr, some, List, [], ◌∷◌, Bytes}
use web_3_bank.ReservePath.ReserveOps.{
  ReserveStatus, update_op, pending, submitted, relayed, completed, failed, ReserveRow,
  is_in_flight, is_submitted, awaits_attestation, list_awaiting_attestation, update_attestation,
  update_relayed, update_failed,
}
use web_3_bank.ReservePath.Calls.{Env, State, later}
use web_3_bank.ReservePath.Relayer.{relay_one, relay_rows, relayer_round}
use web_3_bank.ReservePath.Table.{status_of, IsUnique, update-own}
use web_3_bank.ReservePath.Listing.{Listed, list-Listed}
use web_3_bank.ReservePath.Moves.{relays, stays, then_, Advances, Advances-refl, Advances-trans}
use web_3_bank.ReservePath.RelayCases.{relay_one-cases}
use web_3_bank.ReservePath.Turns.{
  Turns, Turns-refl, Turns-trans, update-Turns, fail-Turns, still_listed,
}

-- The relay of a submitted row moves that row alone.
relay_one-Turns :
    (env : Env) (row : ReserveRow) (s : State)
    → status_of row.op_id s.reserve_ops ≡ some submitted
    → IsUnique s.reserve_ops
    → Turns row.op_id s.reserve_ops (relay_one env row s).reserve_ops
unfolding is_in_flight
relay_one-Turns env row s is u =
    relay_one-cases env row
      (λ rows. Turns row.op_id s.reserve_ops rows × (status_of row.op_id rows ≡ some submitted))
      (Turns row.op_id s.reserve_ops) (λ rows p. p.0) attested dispatched
      (λ now rows p.
        Turns-trans row.op_id s.reserve_ops rows (update_failed row.op_id now rows) p.0
          (fail-Turns row.op_id now rows submitted p.1 refl p.0.advances.unique))
      s (Turns-refl row.op_id s.reserve_ops u, is)
  where
    dispatched :
        (tx : Bytes) (now : ℕ) (rows : List ReserveRow)
        → Turns row.op_id s.reserve_ops rows × (status_of row.op_id rows ≡ some submitted)
        → Turns row.op_id s.reserve_ops (update_relayed row.op_id tx now rows)
    dispatched tx now rows p =
        Turns-trans row.op_id s.reserve_ops rows (update_relayed row.op_id tx now rows) p.0 (
          update-Turns row.op_id
            (λ r. record r { status = relayed; dest_tx_hash = some tx; updated_at = now })
            (λ _. relayed) rows (λ r. refl) (λ r. refl)
            (λ b was. let same : submitted ≡ b = cc in rw⁻¹ same (then_ stays relays))
            p.0.advances.unique)

    attested :
        (m a : Bytes) (now : ℕ) (rows : List ReserveRow)
        → Turns row.op_id s.reserve_ops rows × (status_of row.op_id rows ≡ some submitted)
        → Turns row.op_id s.reserve_ops (update_attestation row.op_id m a now rows)
          × (status_of row.op_id (update_attestation row.op_id m a now rows) ≡ some submitted)
    attested m a now rows p =
        let f : ReserveRow → ReserveRow = λ r. record r {
          cctp_message_bytes = some m;
          cctp_attestation = some a;
          updated_at = now;
        } in
        (
          Turns-trans row.op_id s.reserve_ops rows (update_op row.op_id f rows) p.0 (
              update-Turns row.op_id f (λ b. b) rows (λ r. refl) (λ r. refl) (λ b was. stays)
                p.0.advances.unique),
          update-own row.op_id f (λ b. b) rows submitted (λ r. refl) (λ r. refl) p.1,
        )

only_submitted : (a : ReserveStatus) → is_submitted a ≡ true → a ≡ submitted
only_submitted submitted h = refl
only_submitted pending h = cc
only_submitted relayed h = cc
only_submitted completed h = cc
only_submitted failed h = cc

relay_rows-Advances :
    (env : Env) (l : List ReserveRow) (s : State)
    → Listed is_submitted s.reserve_ops l
    → IsUnique s.reserve_ops
    → Advances s.reserve_ops (relay_rows env l s).reserve_ops
unfolding relay_rows
relay_rows-Advances env [] s h u = Advances-refl s.reserve_ops u
relay_rows-Advances env (row ∷ l) s h u =
    let (a, (is, good)) = h.statuses.0 in
    let a_is : a ≡ submitted = only_submitted a good in
    let one = relay_one-Turns env row s (rw is (rw a_is refl)) u in
    let s' = relay_one env row s in
    Advances-trans s.reserve_ops s'.reserve_ops (relay_rows env l s').reserve_ops one.advances (
      relay_rows-Advances env l s'
        (record {
          different = h.different.1;
          statuses =
              still_listed is_submitted row.op_id s.reserve_ops s'.reserve_ops l one h.different.0
                h.statuses.1;
        })
        one.advances.unique)

-- A row that awaits an attestation is submitted.
awaiting : (r : ReserveRow) → awaits_attestation r ≡ true → is_submitted r.status ≡ true
awaiting r h = elim (Bool-cases (is_submitted r.status)) [
  | inl fine ↦ fine
  | inr other ↦ let wrong : false ≡ true = rw other at h in cc
]

pub relayer_round-Advances :
    (env : Env) (s : State)
    → IsUnique s.reserve_ops
    → Advances s.reserve_ops (relayer_round env s).reserve_ops
unfolding relayer_round list_awaiting_attestation
relayer_round-Advances env s u = elim (Bool-cases (env.database_up s.net.tick)) [
  | inl up ↦ rw up (
      relay_rows-Advances env (list_awaiting_attestation s.reserve_ops) (later s)
        (list-Listed awaits_attestation is_submitted s.reserve_ops awaiting u) u)
  | inr down ↦
      rw down (relay_rows-Advances env [] (later s) (record { different = tt; statuses = tt }) u)
]
