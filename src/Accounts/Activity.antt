-- ===== src/Accounts/Activity.antt =====
-- The activity of a user: services/treasury/src/domain/activity.rs and account_activity.rs.
use web_3_bank.Prelude.{
  ℕ, ◌+◌, min, max, Bool, true, false, Option, none, some, List, [], ◌∷◌, if◌then◌else◌, Bytes,
  codes, ◌===◌, starts_with,
}
use web_3_bank.Decommission.Ops.{to_lowercase}
use web_3_bank.HotPath.RelayLogs.{RelayRow, get_relay_status}
use web_3_bank.AccountIndex.Events.{
  EventKind, deposited, withdrawn, transfer, hot_path_initiated, hot_path_released, AccountEventRow,
  list_activity_for_user,
}
use web_3_bank.AccountIndex.Parsing.{eq_ignore_case}

-- The texts of `kind` and `direction`.
pub data ActivityKind : Type 0 where
  deposit withdrawal moved : ActivityKind

pub data Direction : Type 0 where
  incoming outgoing : Direction

-- `ActivityView`; `occurred_at` is the time in it, none for the empty text.
pub record ActivityView : Type 0 where
  pub kind : ActivityKind
  pub direction : Direction
  pub counterparty : Bytes
  pub chain_id : ℕ
  pub amount_wei : ℕ
  pub status : Bytes
  pub tx_hash : Bytes
  pub occurred_at : Option ℕ

unfoldable pub normalize_relay_status : Option Bytes → Bytes
unfolding starts_with
normalize_relay_status none = codes "pending"
normalize_relay_status (some status) =
    if status === codes "failed"
    then codes "failed"
    else (if starts_with (codes "rejected") status then codes "failed" else status)

-- `is_some_and(|a| a.eq_ignore_ascii_case(&user_lower))`
unfoldable pub is_own : Bytes → Option Bytes → Bool
unfolding eq_ignore_case to_lowercase
is_own user none = false
is_own user (some a) = eq_ignore_case a (to_lowercase user)

abbrev pub view_of : AccountEventRow → ActivityKind → Direction → Bytes → Bytes → ActivityView
view_of row kind direction counterparty status = record {
  kind = kind;
  direction = direction;
  counterparty = counterparty;
  chain_id = row.chain_id;
  amount_wei = row.amount_wei;
  status = status;
  tx_hash = row.tx_hash;
  occurred_at = row.block_time_unix;
}

abbrev pub completed : Bytes
completed = codes "completed"

abbrev pub or_empty : Option Bytes → Bytes
or_empty none = []
or_empty (some a) = a

-- A transfer of the token, with its two addresses.
unfoldable pub transfer_view :
    AccountEventRow → Bytes → Option Bytes → Option Bytes → Option ActivityView
unfolding eq_ignore_case to_lowercase
transfer_view row user none to = none
transfer_view row user (some from) none = none
transfer_view row user (some from) (some to) =
    if eq_ignore_case from (to_lowercase user)
    then some (view_of row moved outgoing to completed)
    else (if eq_ignore_case to (to_lowercase user)
        then some (view_of row moved incoming from completed)
        else none)

-- By the kind of the event.
unfoldable pub map_kind : EventKind → AccountEventRow → Bytes → Option Bytes → Option ActivityView
unfolding is_own transfer_view normalize_relay_status
map_kind deposited row user relay =
    if is_own user row.address_to then some (view_of row deposit incoming [] completed) else none
map_kind withdrawn row user relay =
    if is_own user row.address_from
    then some (view_of row withdrawal outgoing [] completed)
    else none
map_kind transfer row user relay = transfer_view row user row.address_from row.address_to
map_kind hot_path_initiated row user relay =
    if is_own user row.address_from
    then some (view_of row moved outgoing (or_empty row.address_to) (normalize_relay_status relay))
    else none
map_kind hot_path_released row user relay =
    if is_own user row.address_to then some (view_of row moved incoming [] completed) else none

unfoldable pub map_event_to_activity : AccountEventRow → Bytes → Option Bytes → Option ActivityView
unfolding map_kind
map_event_to_activity row user relay = map_kind row.event_kind row user relay

-- The two tables at a time, and whether the database answers.
pub record Env : Type 0 where
  pub database_up : ℕ → Bool
  pub events : ℕ → List AccountEventRow
  pub relay_logs : ℕ → List RelayRow

abbrev is_initiated : EventKind → Bool
is_initiated hot_path_initiated = true
is_initiated _ = false

-- The status of a transfer that was initiated; a failed query reads as none.
unfoldable pub relay_status_at : Env → ℕ → AccountEventRow → Option Bytes
unfolding get_relay_status
relay_status_at env t row =
    if is_initiated row.event_kind
    then (if env.database_up t then get_relay_status row.tx_hash (env.relay_logs t) else none)
    else none

abbrev pub add_view : Option ActivityView → List ActivityView → List ActivityView
add_view none views = views
add_view (some v) views = v ∷ views

-- The loop over the rows, each at its time.
unfoldable pub entries_of : Env → Bytes → ℕ → List AccountEventRow → List ActivityView
unfolding map_event_to_activity relay_status_at
entries_of env user t [] = []
entries_of env user t (row ∷ rows) =
    add_view (map_event_to_activity row user (relay_status_at env t row))
      (entries_of env user (t + 1) rows)

unfoldable pub get_account_activity : Env → ℕ → Bytes → ℕ → List ActivityView
unfolding entries_of list_activity_for_user
get_account_activity env t user limit = entries_of env user (t + 1) (
    if env.database_up t
    then list_activity_for_user user (min (max 1 limit) 100) (env.events t)
    else [])
