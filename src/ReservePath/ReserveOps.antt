-- ===== src/ReservePath/ReserveOps.antt =====
-- treasury.reserve_ops and the queries of services/treasury/src/db/reserve_repo.rs. The rows stand in
-- the order in which the database returns them where a query asks for none. A query that the database
-- refuses is logged and has no effect.
use web_3_bank.Prelude.{
  ℕ, ◌+◌, ◌*◌, Bool, true, false, ◌&&◌, ◌||◌, Option, none, some, List, [], ◌∷◌, ◌==◌, ltb, leb,
  if◌then◌else◌, Bytes, take, ◌===◌,
}

-- The texts that the queries write in the column `status`.
pub data ReserveStatus : Type 0 where
  pending submitted relayed completed failed : ReserveStatus

-- A row of the table, less its number and `completed_at`; the times are in seconds. `ReserveOpRow` is
-- such a row without its times.
pub record ReserveRow : Type 0 where
  pub op_id : Bytes
  pub source_chain_id : ℕ
  pub dest_chain_id : ℕ
  pub amount_wei : ℕ
  pub bridge_type : Bytes
  pub bridge_message_id : Option Bytes
  pub source_tx_hash : Option Bytes
  pub cctp_message_bytes : Option Bytes
  pub cctp_attestation : Option Bytes
  pub dest_tx_hash : Option Bytes
  pub status : ReserveStatus
  pub created_at : ℕ
  pub updated_at : ℕ

-- `status IN ('pending', 'submitted', 'relayed')`
unfoldable pub is_in_flight : ReserveStatus → Bool
is_in_flight pending = true
is_in_flight submitted = true
is_in_flight relayed = true
is_in_flight completed = false
is_in_flight failed = false

unfoldable pub op_in_flight : ℕ → ℕ → ℕ → List ReserveRow → Bool
unfolding is_in_flight
op_in_flight now source dest [] = false
op_in_flight now source dest (r ∷ rows) =
    ((r.source_chain_id == source)
      && ((r.dest_chain_id == dest)
          && (is_in_flight r.status && ltb now (r.created_at + 24 * 3600))))
    || op_in_flight now source dest rows

unfoldable pub reserve_op_exists : Bytes → List ReserveRow → Bool
reserve_op_exists id [] = false
reserve_op_exists id (r ∷ rows) = (r.op_id === id) || reserve_op_exists id rows

-- `ON CONFLICT (op_id) DO NOTHING`
unfoldable pub insert_reserve_op : Bytes → ℕ → ℕ → ℕ → Bytes → ℕ → List ReserveRow → List ReserveRow
unfolding reserve_op_exists
insert_reserve_op id source dest amount bridge_type now rows =
    let row : ReserveRow = record {
      op_id = id;
      source_chain_id = source;
      dest_chain_id = dest;
      amount_wei = amount;
      bridge_type = bridge_type;
      bridge_message_id = none;
      source_tx_hash = none;
      cctp_message_bytes = none;
      cctp_attestation = none;
      dest_tx_hash = none;
      status = pending;
      created_at = now;
      updated_at = now;
    } in
    if reserve_op_exists id rows then rows else row ∷ rows

-- `UPDATE .. SET .. WHERE op_id = ..`
abbrev pub update_op : Bytes → (ReserveRow → ReserveRow) → List ReserveRow → List ReserveRow
update_op id f [] = []
update_op id f (r ∷ rows) = (if r.op_id === id then f r else r) ∷ update_op id f rows

abbrev pub update_submitted : Bytes → Bytes → Option Bytes → ℕ → List ReserveRow → List ReserveRow
update_submitted id tx message_id now = update_op id (λ r. record r {
  status = submitted;
  source_tx_hash = some tx;
  bridge_message_id = message_id;
  updated_at = now;
})

abbrev pub update_attestation : Bytes → Bytes → Bytes → ℕ → List ReserveRow → List ReserveRow
update_attestation id message attestation now = update_op id (λ r. record r {
  cctp_message_bytes = some message;
  cctp_attestation = some attestation;
  updated_at = now;
})

abbrev pub update_relayed : Bytes → Bytes → ℕ → List ReserveRow → List ReserveRow
update_relayed id tx now =
    update_op id (λ r. record r { status = relayed; dest_tx_hash = some tx; updated_at = now })

abbrev pub update_completed : Bytes → ℕ → List ReserveRow → List ReserveRow
update_completed id now = update_op id (λ r. record r { status = completed; updated_at = now })

abbrev pub update_failed : Bytes → ℕ → List ReserveRow → List ReserveRow
update_failed id now = update_op id (λ r. record r { status = failed; updated_at = now })

-- `WHERE ..`
abbrev pub rows_where : (ReserveRow → Bool) → List ReserveRow → List ReserveRow
rows_where test [] = []
rows_where test (r ∷ rows) = let rest = rows_where test rows in if test r then r ∷ rest else rest

-- `ORDER BY updated_at ASC`
abbrev pub insert_by_update : ReserveRow → List ReserveRow → List ReserveRow
insert_by_update r [] = r ∷ []
insert_by_update r (t ∷ rows) =
    if leb r.updated_at t.updated_at then r ∷ t ∷ rows else t ∷ insert_by_update r rows

abbrev pub order_by_update : List ReserveRow → List ReserveRow
order_by_update [] = []
order_by_update (r ∷ rows) = insert_by_update r (order_by_update rows)

-- `LIMIT 50`
abbrev pub list_limit : ℕ
list_limit = 50

abbrev pub is_none : Option Bytes → Bool
is_none none = true
is_none (some b) = false

-- `status = 'submitted' AND bridge_message_id IS NOT NULL AND cctp_attestation IS NULL`
abbrev pub is_submitted : ReserveStatus → Bool
is_submitted submitted = true
is_submitted _ = false

abbrev pub is_relayed : ReserveStatus → Bool
is_relayed relayed = true
is_relayed _ = false

abbrev pub is_some : Option Bytes → Bool
is_some none = false
is_some (some b) = true

abbrev pub awaits_attestation : ReserveRow → Bool
awaits_attestation r =
    is_submitted r.status && (is_some r.bridge_message_id && is_none r.cctp_attestation)

unfoldable pub list_awaiting_attestation : List ReserveRow → List ReserveRow
list_awaiting_attestation rows =
    take list_limit (order_by_update (rows_where awaits_attestation rows))

unfoldable pub list_awaiting_completion : List ReserveRow → List ReserveRow
list_awaiting_completion rows =
    take list_limit (order_by_update (rows_where (λ r. is_relayed r.status) rows))

-- `bridge_message_id = $2`
abbrev pub has_message : Bytes → Option Bytes → Bool
has_message message_id none = false
has_message message_id (some m) = m === message_id

-- `LIMIT 1`
unfoldable pub find_by_dest_and_message_id : ℕ → Bytes → List ReserveRow → Option ReserveRow
find_by_dest_and_message_id dest message_id [] = none
find_by_dest_and_message_id dest message_id (r ∷ rows) =
    if (r.dest_chain_id == dest) && has_message message_id r.bridge_message_id
    then some r
    else find_by_dest_and_message_id dest message_id rows

-- `updated_at < NOW() - make_interval(secs => $1)`, of a row in flight.
unfoldable pub is_stuck : ℕ → ℕ → ReserveRow → Bool
unfolding is_in_flight
is_stuck now secs r = is_in_flight r.status && ltb (r.updated_at + secs) now

unfoldable pub list_stuck : ℕ → ℕ → List ReserveRow → List ReserveRow
unfolding is_stuck
list_stuck now secs rows = take list_limit (order_by_update (rows_where (is_stuck now secs) rows))
