-- ===== src/AccountIndex/Events.antt =====
-- treasury.account_events and treasury.index_cursors, with the queries of
-- services/treasury/src/db/account_event_repo.rs. A decimal text of an amount is its number, and a
-- kind is one of the texts that the indexer writes.
use web_3_bank.Prelude.{
  ℕ, ◌+◌, ◌-◌, ◌^◌, Bool, true, false, ◌&&◌, ◌||◌, Option, none, some, List, [], ◌∷◌, ◌==◌, ltb,
  leb, take, if◌then◌else◌, Bytes, ◌===◌,
}
use web_3_bank.Decommission.Ops.{to_lowercase}

pub data EventKind : Type 0 where
  deposited withdrawn transfer hot_path_initiated hot_path_released : EventKind

-- `AccountEventRow`; `chain_id`, `log_index` and `block_number` are the bits of the signed columns.
pub record AccountEventRow : Type 0 where
  pub chain_id : ℕ
  pub tx_hash : Bytes
  pub log_index : ℕ
  pub event_kind : EventKind
  pub address_from : Option Bytes
  pub address_to : Option Bytes
  pub amount_wei : ℕ
  pub block_number : ℕ
  pub block_time_unix : Option ℕ
  pub correlation : Option Bytes

pub data UpsertEventResult : Type 0 where
  inserted already_exists : UpsertEventResult

-- `ON CONFLICT (chain_id, tx_hash, log_index)`
unfoldable pub same_event : AccountEventRow → AccountEventRow → Bool
same_event r t =
    (r.chain_id == t.chain_id) && ((r.tx_hash === t.tx_hash) && (r.log_index == t.log_index))

unfoldable pub event_exists : AccountEventRow → List AccountEventRow → Bool
unfolding same_event
event_exists r [] = false
event_exists r (t ∷ rows) = same_event r t || event_exists r rows

-- The statement of `upsert_event`.
unfoldable pub upsert_event :
    AccountEventRow → List AccountEventRow → UpsertEventResult × List AccountEventRow
unfolding event_exists
upsert_event r rows = if event_exists r rows then (already_exists, rows) else (inserted, r ∷ rows)

abbrev pub is_deposited : EventKind → Bool
is_deposited deposited = true
is_deposited _ = false

abbrev pub is_address : Bytes → Option Bytes → Bool
is_address a none = false
is_address a (some b) = b === a

-- `user_has_deposit`
unfoldable pub user_has_deposit : Bytes → List AccountEventRow → Bool
user_has_deposit user [] = false
user_has_deposit user (r ∷ rows) =
    (is_deposited r.event_kind && is_address user r.address_to) || user_has_deposit user rows

-- `lower(..) = $2`, with `$2` in lower case.
unfoldable pub same_lower : Bytes → Option Bytes → Bool
unfolding to_lowercase
same_lower user none = false
same_lower user (some a) = to_lowercase a === to_lowercase user

-- What a row adds to the balance of a user, and what it takes.
abbrev pub credited : EventKind → Bool
credited deposited = true
credited transfer = true
credited hot_path_released = true
credited _ = false

abbrev pub debited : EventKind → Bool
debited withdrawn = true
debited transfer = true
debited hot_path_initiated = true
debited _ = false

unfoldable pub credit : Bytes → AccountEventRow → ℕ
unfolding same_lower
credit user r = if credited r.event_kind && same_lower user r.address_to then r.amount_wei else 0

unfoldable pub debit : Bytes → AccountEventRow → ℕ
unfolding same_lower
debit user r = if debited r.event_kind && same_lower user r.address_from then r.amount_wei else 0

-- The deltas of a chain, those above 0 and those below.
unfoldable pub credits : ℕ → Bytes → List AccountEventRow → ℕ
unfolding credit
credits chain user [] = 0
credits chain user (r ∷ rows) =
    (if r.chain_id == chain then credit user r else 0) + credits chain user rows

unfoldable pub debits : ℕ → Bytes → List AccountEventRow → ℕ
unfolding debit
debits chain user [] = 0
debits chain user (r ∷ rows) =
    (if r.chain_id == chain then debit user r else 0) + debits chain user rows

-- `indexed_balance_on_chain(..).parse::<U256>().unwrap_or(ZERO)`: a negative sum, or one past 256
-- bits, reads as 0.
unfoldable pub indexed_balance_on_chain : ℕ → Bytes → List AccountEventRow → ℕ
unfolding credits debits
indexed_balance_on_chain chain user rows =
    let sum = credits chain user rows - debits chain user rows in
    if ltb sum (2 ^ 256) then sum else 0

-- `ORDER BY block_time DESC NULLS LAST, block_number DESC, log_index DESC`
unfoldable pub later_time : Option ℕ → Option ℕ → Bool → Bool
later_time none none tie = tie
later_time none (some b) tie = false
later_time (some a) none tie = true
later_time (some a) (some b) tie = if a == b then tie else ltb b a

unfoldable pub comes_first : AccountEventRow → AccountEventRow → Bool
unfolding later_time
comes_first r t = later_time r.block_time_unix t.block_time_unix (
    if r.block_number == t.block_number
    then leb t.log_index r.log_index
    else ltb t.block_number r.block_number)

unfoldable pub insert_first : AccountEventRow → List AccountEventRow → List AccountEventRow
unfolding comes_first
insert_first r [] = r ∷ []
insert_first r (t ∷ rows) = if comes_first r t then r ∷ t ∷ rows else t ∷ insert_first r rows

-- The rows of a user, ordered.
unfoldable pub activity_rows : Bytes → List AccountEventRow → List AccountEventRow
unfolding insert_first same_lower
activity_rows user [] = []
activity_rows user (r ∷ rows) =
    let rest = activity_rows user rows in
    if same_lower user r.address_from || same_lower user r.address_to
    then insert_first r rest
    else rest

-- `list_activity_for_user`
unfoldable pub list_activity_for_user : Bytes → ℕ → List AccountEventRow → List AccountEventRow
unfolding activity_rows
list_activity_for_user user limit rows = take limit (activity_rows user rows)
