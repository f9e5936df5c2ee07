-- ===== src/Decommission/Ops.antt =====
-- treasury.decommission_ops and the queries of services/treasury/src/db/decommission_repo.rs. A query
-- that the database refuses is logged and has no effect.
use web_3_bank.Prelude.{
  ℕ, ◌+◌, Bool, false, ◌&&◌, ◌||◌, Option, none, some, List, [], ◌∷◌, ◌++◌, ◌==◌, leb,
  if◌then◌else◌, Bytes, codes, ◌===◌, decimal_digits,
}

pub data DecommissionOpStatus : Type 0 where
  pending submitted completed paused failed : DecommissionOpStatus

-- `DecommissionOpStatus::as_str`
unfoldable pub status_text : DecommissionOpStatus → Bytes
status_text pending = codes "pending"
status_text submitted = codes "submitted"
status_text completed = codes "completed"
status_text paused = codes "paused"
status_text failed = codes "failed"

-- A row of the operation of a holder, less its times.
pub record DrainRow : Type 0 where
  pub op_id : Bytes
  pub chain_id : ℕ
  pub dst_chain_id : ℕ
  pub holder_address : Bytes
  pub amount : ℕ
  pub status : Bytes
  pub src_message_id : Option Bytes
  pub dst_tx_hash : Option Bytes
  pub failure_reason : Option Bytes

unfoldable pub op_exists : Bytes → List DrainRow → Bool
op_exists id [] = false
op_exists id (r ∷ rows) = (r.op_id === id) || op_exists id rows

unfoldable pub completed_holders : ℕ → ℕ → List DrainRow → List Bytes
unfolding status_text
completed_holders source target [] = []
completed_holders source target (r ∷ rows) =
    let rest = completed_holders source target rows in
    if (r.chain_id == source)
      && ((r.dst_chain_id == target) && (r.status === status_text completed))
    then r.holder_address ∷ rest
    else rest

-- `ON CONFLICT (op_id) DO NOTHING`
unfoldable pub insert_holder_op :
    Bytes → ℕ → ℕ → Bytes → ℕ → DecommissionOpStatus → List DrainRow → List DrainRow
unfolding op_exists status_text
insert_holder_op id source target holder amount status rows =
    let row : DrainRow = record {
      op_id = id;
      chain_id = source;
      dst_chain_id = target;
      holder_address = holder;
      amount = amount;
      status = status_text status;
      src_message_id = none;
      dst_tx_hash = none;
      failure_reason = none;
    } in
    if op_exists id rows then rows else row ∷ rows

-- `UPDATE .. WHERE op_id = ..`
abbrev pub update_op : (DrainRow → DrainRow) → Bytes → List DrainRow → List DrainRow
update_op f id [] = []
update_op f id (r ∷ rows) = (if r.op_id === id then f r else r) ∷ update_op f id rows

unfoldable pub mark_holder_submitted :
    Bytes → Option Bytes → Option Bytes → List DrainRow → List DrainRow
unfolding status_text
mark_holder_submitted id message tx =
    update_op
      (λ r. record r { status = status_text submitted; src_message_id = message; dst_tx_hash = tx })
      id

unfoldable pub mark_holder_completed : Bytes → List DrainRow → List DrainRow
unfolding status_text
mark_holder_completed id = update_op (λ r. record r { status = status_text completed }) id

unfoldable pub mark_op_failed : Bytes → Bytes → List DrainRow → List DrainRow
unfolding status_text
mark_op_failed id reason =
    update_op (λ r. record r { status = status_text failed; failure_reason = some reason }) id

-- `to_lowercase` on ASCII text.
unfoldable pub lower : ℕ → ℕ
lower c = if leb b'A' c && leb c b'Z' then c + 32 else c

unfoldable pub to_lowercase : Bytes → Bytes
unfolding lower
to_lowercase [] = []
to_lowercase (c ∷ s) = lower c ∷ to_lowercase s

-- `HashSet<String>::contains` on the lowercased addresses.
unfoldable pub contains_holder : Bytes → List Bytes → Bool
unfolding to_lowercase
contains_holder holder [] = false
contains_holder holder (h ∷ rest) =
    (to_lowercase h === to_lowercase holder) || contains_holder holder rest

-- `format!("decom-{}-{}-{}", ..)`
unfoldable pub op_id_of : ℕ → ℕ → Bytes → Bytes
unfolding decimal_digits
op_id_of source target holder =
    codes "decom-"
    ++ (decimal_digits 20 source []
        ++ (codes "-" ++ (decimal_digits 20 target [] ++ (codes "-" ++ holder))))
