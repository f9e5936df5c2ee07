-- ===== src/ReservePath/Stranded.antt =====
-- A destination without an adapter, in `relay_one` and `relayer_loop` of services/treasury/src/reserve_path.rs.
use web_3_bank.Prelude.{
  ℕ, zero, suc, ◌+◌, ◌≡◌, refl, sym, ap, ◌∙◌, Bool, true, false, ◌&&◌, Bool-cases, Option-cases,
  inl, inr, none, some, Option, List, [], ◌∷◌, Bytes, ◌===◌, ===→eq, All,
}
use web_3_bank.Prelude.Dict.{get}
use web_3_bank.ReservePath.ReserveOps.{
  ReserveStatus, relayed, failed, ReserveRow, is_submitted, is_some, awaits_attestation,
  update_attestation, update_op, rows_where, order_by_update, list_limit, list_awaiting_attestation,
}
use web_3_bank.ReservePath.Table.{status_of, ===_sym, update-others, update-own, update-absent}
use web_3_bank.ReservePath.Listing.{order-All, take-All}
use web_3_bank.ReservePath.RelayCases.{relay_one-cases}
use web_3_bank.ReservePath.Calls.{Env, State, later, write}
use web_3_bank.ReservePath.Relayer.{
  adapter_of, with_attestation, on_answer, on_domain, on_source_tx, domain_of, first_ready,
  relay_one, relay_rows, relayer_round,
}

with_attestation-unconfigured :
    (env : Env) (row : ReserveRow) (m a : Bytes) (s : State)
    → adapter_of env row.dest_chain_id ≡ none
    → with_attestation env row m a s ≡ s
unfolding with_attestation
with_attestation-unconfigured env row m a s no_adapter =
    elim (Option-cases (get row.dest_chain_id env.rpc_urls)) [
      | inl no_rpc ↦ rw (no_rpc, with_attestation) refl
      | inr (rpc, has_rpc) ↦ rw (has_rpc, no_adapter, with_attestation) refl
    ]

relay_one-unconfigured :
    (env : Env) (row : ReserveRow) (s : State) (tx m a : Bytes) (domain : ℕ)
    → row.source_tx_hash ≡ some tx
    → domain_of env row.source_chain_id ≡ some domain
    → first_ready (env.circle s.net.tick domain tx) ≡ some (m, a)
    → adapter_of env row.dest_chain_id ≡ none
    → relay_one env row s ≡ write env (update_attestation row.op_id m a) (later s)
unfolding relay_one on_source_tx on_domain on_answer
relay_one-unconfigured env row s tx m a domain has_tx has_domain answered no_adapter =
    ap (λ o. on_source_tx env row o s) has_tx
    ∙ (ap (λ o. on_domain env row tx o s) has_domain
        ∙ (ap (λ o. on_answer env row o (later s)) answered
            ∙ with_attestation-unconfigured env row m a
                (write env (update_attestation row.op_id m a) (later s)) no_adapter))

and-false : (a b : Bool) → a && (b && false) ≡ false
and-false false b = refl
and-false true false = refl
and-false true true = refl

module _ (id m a : Bytes) (now : ℕ) where
  -- With an attestation a row does not await one.
  attested-waits :
      (rows : List ReserveRow)
      → All
          (λ r. (r.op_id === id) ≡ true → awaits_attestation r ≡ false)
          (update_attestation id m a now rows)
  attested-waits [] = tt
  attested-waits (r ∷ rows) = elim (Bool-cases (r.op_id === id)) [
    | inl own ↦ rw own (
      (λ e. and-false (is_submitted r.status) (is_some r.bridge_message_id)),
      attested-waits rows,
    )
    | inr other ↦
        rw other ((λ e. let wrong : false ≡ true = rw other at e in cc), attested-waits rows)
  ]

  attested-status :
      (rows : List ReserveRow)
      → status_of id (update_attestation id m a now rows) ≡ status_of id rows
  attested-status rows = elim (Option-cases (status_of id rows)) [
    | inl absent ↦ rw absent (
        update-absent id
          (λ r. record r {
            cctp_message_bytes = some m;
            cctp_attestation = some a;
            updated_at = now;
          })
          rows absent)
    | inr (st, is) ↦ rw is (
        update-own id
          (λ r. record r {
            cctp_message_bytes = some m;
            cctp_attestation = some a;
            updated_at = now;
          })
          (λ b. b) rows st (λ r. refl) (λ r. refl) is)
  ]

-- So many rounds of the relayer.
unfoldable pub relayer_rounds : Env → ℕ → State → State
unfolding relayer_round
relayer_rounds env zero s = s
relayer_rounds env (suc n) s = relayer_rounds env n (relayer_round env s)

module _ (env : Env) (id : Bytes) where
  abbrev IsApart : ReserveRow → Type 0
  IsApart q = (q.op_id === id) ≡ false

  abbrev Unlisted : List ReserveRow → Type 0
  Unlisted rows = All (λ r. (r.op_id === id) ≡ true → awaits_attestation r ≡ false) rows

  -- The operation has this status, and no row of it awaits an attestation.
  abbrev Kept : Option ReserveStatus → List ReserveRow → Type 0
  Kept st rows = (status_of id rows ≡ st) × Unlisted rows

  update-Unlisted :
      (j : Bytes) (f : ReserveRow → ReserveRow) (rows : List ReserveRow)
      → ((r : ReserveRow) → (f r).op_id ≡ r.op_id)
      → (j === id) ≡ false
      → Unlisted rows
      → Unlisted (update_op j f rows)
  update-Unlisted j f [] same ne h = tt
  update-Unlisted j f (r ∷ rows) same ne h = elim (Bool-cases (r.op_id === j)) [
    | inl own ↦
        let is : r.op_id ≡ j = ===→eq r.op_id j own in
        let apart : ((f r).op_id === id) ≡ false = rw (same r, is) ne in
        rw own (
          (λ e. let wrong : false ≡ true = rw apart at e in cc),
          update-Unlisted j f rows same ne h.1,
        )
    | inr other ↦ rw other (h.0, update-Unlisted j f rows same ne h.1)
  ]

  update-Kept :
      (j : Bytes) (f : ReserveRow → ReserveRow) (st : Option ReserveStatus) (rows : List ReserveRow)
      → ((r : ReserveRow) → (f r).op_id ≡ r.op_id)
      → (j === id) ≡ false
      → Kept st rows
      → Kept st (update_op j f rows)
  update-Kept j f st rows same ne h =
      let apart : (id === j) ≡ false = rw (===_sym id j) ne in
      (update-others j f rows same id apart ∙ h.0, update-Unlisted j f rows same ne h.1)

  -- The relay of another operation.
  relay_one-Kept :
      (q : ReserveRow) (st : Option ReserveStatus) (s : State)
      → IsApart q
      → Kept st s.reserve_ops
      → Kept st (relay_one env q s).reserve_ops
  relay_one-Kept q st s ne h =
      relay_one-cases env q (Kept st) (Kept st) (λ rows k. k)
        (λ m a now rows.
          update-Kept q.op_id
            (λ r. record r {
              cctp_message_bytes = some m;
              cctp_attestation = some a;
              updated_at = now;
            })
            st rows (λ r. refl) ne)
        (λ tx now rows.
          update-Kept q.op_id
            (λ r. record r { status = relayed; dest_tx_hash = some tx; updated_at = now }) st rows
            (λ r. refl) ne)
        (λ now rows.
          update-Kept q.op_id (λ r. record r { status = failed; updated_at = now }) st rows
            (λ r. refl) ne)
        s h

  relay_rows-Kept :
      (l : List ReserveRow) (st : Option ReserveStatus) (s : State)
      → All IsApart l
      → Kept st s.reserve_ops
      → Kept st (relay_rows env l s).reserve_ops
  unfolding relay_rows
  relay_rows-Kept [] st s apart h = h
  relay_rows-Kept (q ∷ l) st s apart h =
      relay_rows-Kept l st (relay_one env q s) apart.1 (relay_one-Kept q st s apart.0 h)

  where-IsApart :
      (rows : List ReserveRow) → Unlisted rows → All IsApart (rows_where awaits_attestation rows)
  where-IsApart [] h = tt
  where-IsApart (r ∷ rows) h = elim (Bool-cases (awaits_attestation r)) [
    | inl waits ↦ rw waits (not_own waits, where-IsApart rows h.1)
    | inr attested ↦ rw attested (where-IsApart rows h.1)
  ]
    where
      not_own : awaits_attestation r ≡ true → IsApart r
      not_own waits = elim (Bool-cases (r.op_id === id)) [
        | inl own ↦ let wrong : true ≡ false = sym waits ∙ h.0 own in cc
        | inr other ↦ other
      ]

  -- No round lists the operation.
  list-IsApart :
      (rows : List ReserveRow) → Unlisted rows → All IsApart (list_awaiting_attestation rows)
  unfolding list_awaiting_attestation
  list-IsApart rows h =
      take-All IsApart list_limit (order_by_update (rows_where awaits_attestation rows))
        (order-All IsApart (rows_where awaits_attestation rows) (where-IsApart rows h))

  relayer_rounds-Kept :
      (n : ℕ) (st : Option ReserveStatus) (s : State)
      → Kept st s.reserve_ops
      → Kept st (relayer_rounds env n s).reserve_ops
  unfolding relayer_rounds relayer_round
  relayer_rounds-Kept zero st s h = h
  relayer_rounds-Kept (suc n) st s h =
      relayer_rounds-Kept n st (relayer_round env s)
        (elim (Bool-cases (env.database_up s.net.tick)) [
          | inl up ↦ rw up (
              relay_rows-Kept (list_awaiting_attestation s.reserve_ops) st (later s)
                (list-IsApart s.reserve_ops h.1) h)
          | inr down ↦ rw down h
        ])

-- If Circle's answer for a row is ready, the database stores it, and no adapter is configured for the
-- destination, no `bridgeIn` is sent, and after any number of further rounds of the relayer the
-- operation still has its status, and no row of it is listed for the next round.
pub relay_one-stranded :
    (env : Env) (row : ReserveRow) (s : State) (tx m a : Bytes) (domain n : ℕ)
    → row.source_tx_hash ≡ some tx
    → domain_of env row.source_chain_id ≡ some domain
    → first_ready (env.circle s.net.tick domain tx) ≡ some (m, a)
    → adapter_of env row.dest_chain_id ≡ none
    → env.database_up (s.net.tick + 1) ≡ true
    → let rows = (relayer_rounds env n (relay_one env row s)).reserve_ops in
      ((relay_one env row s).net.sent ≡ s.net.sent)
      × ((status_of row.op_id rows ≡ status_of row.op_id s.reserve_ops)
          × All (λ q. (q.op_id === row.op_id) ≡ false) (list_awaiting_attestation rows))
relay_one-stranded env row s tx m a domain n has_tx has_domain answered no_adapter up =
    let now = env.database_now (s.net.tick + 1) in
    let e = relay_one-unconfigured env row s tx m a domain has_tx has_domain answered no_adapter in
    let first : Kept env row.op_id (status_of row.op_id s.reserve_ops)
        (relay_one env row s).reserve_ops =
      rw e (
        rw up (attested-status row.op_id m a now s.reserve_ops),
        rw up (attested-waits row.op_id m a now s.reserve_ops),
      ) in
    let k =
      relayer_rounds-Kept env row.op_id n (status_of row.op_id s.reserve_ops) (relay_one env row s)
        first in
    (
      rw e refl,
      (
        k.0,
        list-IsApart env row.op_id (relayer_rounds env n (relay_one env row s)).reserve_ops k.1,
      ),
    )
