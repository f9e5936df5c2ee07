-- ===== src/ColdPath/RebalanceOps.antt =====
-- treasury.rebalance_ops and the queries of services/treasury/src/db/rebalance_repo.rs, with the
-- statuses of domain/status.rs. A query that the database refuses is logged and has no effect.
use web_3_bank.Prelude.{
  ℕ, ◌+◌, ◌*◌, Bool, false, ◌&&◌, ◌||◌, Option, none, some, List, [], ◌∷◌, ◌==◌, ltb, if◌then◌else◌,
  Bytes, codes, ◌===◌,
}

pub data RebalanceStatus : Type 0 where
  pending submitted failed : RebalanceStatus

-- `RebalanceStatus::as_str`
unfoldable pub rebalance_text : RebalanceStatus → Bytes
rebalance_text pending = codes "pending"
rebalance_text submitted = codes "submitted"
rebalance_text failed = codes "failed"

-- A row, less its number; `created_at` in seconds.
pub record RebalanceRow : Type 0 where
  pub op_id : Bytes
  pub source_chain_id : ℕ
  pub dest_chain_id : ℕ
  pub amount_wei : ℕ
  pub ccip_message_id : Option Bytes
  pub source_tx_hash : Option Bytes
  pub status : Bytes
  pub created_at : ℕ

-- `status IN ('pending', 'submitted') AND created_at > NOW() - INTERVAL '24 hours'`
is_open : ℕ → RebalanceRow → Bool
unfolding rebalance_text
is_open now r =
    ((r.status === rebalance_text pending) || (r.status === rebalance_text submitted))
    && ltb now (r.created_at + 24 * 3600)

unfoldable pub op_in_flight : ℕ → ℕ → ℕ → List RebalanceRow → Bool
unfolding is_open
op_in_flight now source dest [] = false
op_in_flight now source dest (r ∷ rows) =
    ((r.source_chain_id == source) && ((r.dest_chain_id == dest) && is_open now r))
    || op_in_flight now source dest rows

unfoldable pub rebalance_op_exists : Bytes → List RebalanceRow → Bool
rebalance_op_exists id [] = false
rebalance_op_exists id (r ∷ rows) = (r.op_id === id) || rebalance_op_exists id rows

-- `ON CONFLICT (op_id) DO NOTHING`
unfoldable pub insert_rebalance_op : ℕ → Bytes → ℕ → ℕ → ℕ → List RebalanceRow → List RebalanceRow
unfolding rebalance_op_exists rebalance_text
insert_rebalance_op now id source dest amount rows =
    let row : RebalanceRow = record {
      op_id = id;
      source_chain_id = source;
      dest_chain_id = dest;
      amount_wei = amount;
      ccip_message_id = none;
      source_tx_hash = none;
      status = rebalance_text pending;
      created_at = now;
    } in
    if rebalance_op_exists id rows then rows else row ∷ rows

abbrev update_row : (RebalanceRow → RebalanceRow) → Bytes → List RebalanceRow → List RebalanceRow
update_row f id [] = []
update_row f id (r ∷ rows) = (if r.op_id === id then f r else r) ∷ update_row f id rows

unfoldable pub update_rebalance_op_submitted :
    Bytes → Bytes → Option Bytes → List RebalanceRow → List RebalanceRow
unfolding rebalance_text
update_rebalance_op_submitted id tx message =
    update_row
      (λ r. record r {
        status = rebalance_text submitted;
        source_tx_hash = some tx;
        ccip_message_id = message;
      })
      id

unfoldable pub update_rebalance_op_failed : Bytes → List RebalanceRow → List RebalanceRow
unfolding rebalance_text
update_rebalance_op_failed id = update_row (λ r. record r { status = rebalance_text failed }) id
