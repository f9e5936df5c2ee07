-- ===== src/HotPath/RelayLogs.antt =====
-- `treasury.relay_logs` and the queries of services/treasury/src/db/relay_repo.rs. A query that the
-- database refuses is logged and has no effect.
use web_3_bank.Prelude.{
  ℕ, Bool, false, ◌||◌, Option, none, some, List, [], ◌∷◌, ◌++◌, if◌then◌else◌, Bytes, ◌===◌, codes,
}
use web_3_bank.Eth.Hex.{bytes_to_hex}
use web_3_bank.Domain.Relay.{RelayStatus, failed, as_str}

-- `HotPathEvent` of services/treasury/src/domain/events.rs.
pub record HotPathEvent : Type 0 where
  pub source_chain_id : ℕ
  pub source_event_hash : Bytes
  pub sender : Bytes
  pub recipient : Bytes
  pub amount : ℕ
  pub dest_chain_id : ℕ
  pub event_id : Bytes

-- A row, less its number and its times.
pub record RelayRow : Type 0 where
  pub source_event_hash : Bytes
  pub dest_tx_hash : Option Bytes
  pub source_chain_id : ℕ
  pub dest_chain_id : ℕ
  pub sender : Bytes
  pub recipient : Bytes
  pub amount_wei : ℕ
  pub status : Bytes

-- `SELECT EXISTS(SELECT 1 .. WHERE source_event_hash = $1)`
unfoldable pub relay_recorded : Bytes → List RelayRow → Bool
relay_recorded h [] = false
relay_recorded h (r ∷ rows) = (r.source_event_hash === h) || relay_recorded h rows

unfoldable pub row_of : HotPathEvent → Option Bytes → RelayStatus → RelayRow
unfolding as_str bytes_to_hex
row_of event dest_tx_hash status = record {
  source_event_hash = event.source_event_hash;
  dest_tx_hash = dest_tx_hash;
  source_chain_id = event.source_chain_id;
  dest_chain_id = event.dest_chain_id;
  sender = event.sender;
  recipient = codes "0x" ++ bytes_to_hex event.recipient;
  amount_wei = event.amount;
  status = as_str status;
}

-- `ON CONFLICT (source_event_hash) DO NOTHING`
unfoldable pub insert_relay_log :
    HotPathEvent → Option Bytes → RelayStatus → List RelayRow → List RelayRow
unfolding relay_recorded row_of
insert_relay_log event tx status rows =
    if relay_recorded event.source_event_hash rows then rows else row_of event tx status ∷ rows

unfoldable pub update_relay_log : Bytes → Bytes → RelayStatus → List RelayRow → List RelayRow
unfolding as_str
update_relay_log h tx status [] = []
update_relay_log h tx status (r ∷ rows) =
    (if r.source_event_hash === h
      then record r { dest_tx_hash = some tx; status = as_str status }
      else r)
    ∷ update_relay_log h tx status rows

unfoldable pub update_relay_log_failed : Bytes → List RelayRow → List RelayRow
unfolding as_str
update_relay_log_failed h [] = []
update_relay_log_failed h (r ∷ rows) =
    (if r.source_event_hash === h then record r { status = as_str failed } else r)
    ∷ update_relay_log_failed h rows

unfoldable pub get_relay_status : Bytes → List RelayRow → Option Bytes
get_relay_status h [] = none
get_relay_status h (r ∷ rows) =
    if r.source_event_hash === h then some r.status else get_relay_status h rows
