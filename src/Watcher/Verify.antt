-- ===== src/Watcher/Verify.antt =====
-- `verify_release` and `pause_contract` of services/treasury/src/watcher.rs, with the queries of
-- db/watcher_repo.rs.
use web_3_bank.Prelude.{
  ℕ, ◌+◌, Bool, true, false, ◌||◌, Option, none, some, List, [], ◌∷◌, ◌++◌, if◌then◌else◌, Bytes,
  codes, ◌===◌,
}
use web_3_bank.Prelude.Dict.{Dict, get}
use web_3_bank.Eth.Hex.{bytes_to_hex}
use web_3_bank.Eth.Submit.{Node, Net, Call, Result, ok, err, submit_with_retry, Logs}
use web_3_bank.Watcher.Events.{
  InitiatedEvent, ReleasedEvent, AlertType, verified, mismatch, source_not_found, alert_text,
  verify_against, Cache, cache_get,
}

-- A row of treasury.watcher_alerts, less its number and its time.
pub record AlertRow : Type 0 where
  pub source_event_hash : Bytes
  pub alert_type : Bytes
  pub detail : Bytes

-- What a `Watcher` is built with, the network's answers, whether the database answers at a time, and
-- the JSON library's text of the detail, with the hash of the pause.
pub record Env : Type 0 where
  pub node : Node
  pub database_up : ℕ → Bool
  pub watcher_rpc_urls : Option (Dict Bytes)
  pub rpc_urls : Dict Bytes
  pub contract_addresses : Dict Bytes
  pub pauser_key : Option Bytes
  pub pauser_address : Option Bytes
  pub pause_selector : Bytes
  pub detail_json : ReleasedEvent → Option InitiatedEvent → Option Bytes → Bytes

pub record State : Type 0 where
  pub net : Net
  pub initiated_cache : Cache
  pub alerts : List AlertRow

unfoldable pub effective_rpc_urls : Env → Dict Bytes
effective_rpc_urls env = elim env.watcher_rpc_urls [ none ↦ env.rpc_urls | some urls ↦ urls ]

-- `format!("{}", transfer_id)`
unfoldable pub transfer_id_hex : ReleasedEvent → Bytes
unfolding bytes_to_hex
transfer_id_hex release = codes "0x" ++ bytes_to_hex release.transfer_id

unfoldable pub alert_recorded : Bytes → List AlertRow → Bool
alert_recorded h [] = false
alert_recorded h (r ∷ rows) = (r.source_event_hash === h) || alert_recorded h rows

-- A failed query reads as `false`.
unfoldable pub already_verified : Env → Bytes → State → Bool
unfolding alert_recorded
already_verified env h s = if env.database_up s.net.tick then alert_recorded h s.alerts else false

-- One unit of time passes with each call out.
abbrev pub later : State → State
later s = record s { net = record s.net { tick = s.net.tick + 1 } }

-- `ON CONFLICT (source_event_hash) DO NOTHING`
unfoldable pub insert_alert : Env → Bytes → AlertType → Bytes → State → State
unfolding alert_recorded alert_text
insert_alert env h alert detail s =
    let row : AlertRow = record {
      source_event_hash = h;
      alert_type = alert_text alert;
      detail = detail;
    } in
    let stored = if alert_recorded h s.alerts then s.alerts else row ∷ s.alerts in
    record (later s) { alerts = if env.database_up s.net.tick then stored else s.alerts }

-- The alert for a release, with the initiated event that was found.
unfoldable pub classify : ReleasedEvent → Option InitiatedEvent → AlertType
unfolding verify_against
classify release none = source_not_found
classify release (some initiated) = verify_against release initiated

pause_gas_limit : ℕ
pause_gas_limit = 80000

-- The call that `submit_pause_once` makes.
unfoldable pub pause_call : Env → ReleasedEvent → Bytes → Bytes → Call
unfolding pause_gas_limit
pause_call env release rpc_url bank_addr = record {
  chain_id = release.dest_chain_id;
  rpc_url = rpc_url;
  contract = bank_addr;
  gas_limit = pause_gas_limit;
  value = [];
  call_data = env.pause_selector;
  send_error = λ e. e;
}

abbrev hash_of : Result (Bytes × Logs) → Option Bytes
hash_of (ok (hash, logs)) = some hash
hash_of (err e) = none

-- The loop of `pause_contract`.
unfoldable pub submit_pause :
    Env → ReleasedEvent → Bytes → Bytes → Bytes → Bytes → State → Option Bytes × State
unfolding submit_with_retry pause_call
submit_pause env release key addr rpc_url bank_addr s =
    let (r, net) =
      submit_with_retry env.node (pause_call env release rpc_url bank_addr) (some key) (some addr)
        s.net in
    (hash_of r, record s { net = net })

-- With a key and an address, an RPC URL and a bank contract are still needed.
unfoldable pub pause_at : Env → ReleasedEvent → Bytes → Bytes → State → Option Bytes × State
unfolding submit_pause effective_rpc_urls
pause_at env release key addr s = elim (get release.dest_chain_id (effective_rpc_urls env)) [
  | none ↦ (none, s)
  | some rpc_url ↦ elim (get release.dest_chain_id env.contract_addresses) [
    | none ↦ (none, s)
    | some bank_addr ↦ submit_pause env release key addr rpc_url bank_addr s
  ]
]

-- With the key and the address, where there are any.
unfoldable pub pause_with :
    Env → ReleasedEvent → Option Bytes → Option Bytes → State → Option Bytes × State
unfolding pause_at
pause_with env release none addr s = (none, s)
pause_with env release (some key) none s = (none, s)
pause_with env release (some key) (some addr) s = pause_at env release key addr s

unfoldable pub pause_contract : Env → ReleasedEvent → State → Option Bytes × State
unfolding pause_with
pause_contract env release s = pause_with env release env.pauser_key env.pauser_address s

-- The pause of an anomaly; it comes before the alert is stored.
unfoldable pub respond : Env → ReleasedEvent → AlertType → State → Option Bytes × State
unfolding pause_contract
respond env release verified s = (none, s)
respond env release mismatch s = pause_contract env release s
respond env release source_not_found s = pause_contract env release s

-- `verify_release` after its guard.
unfoldable pub check : Env → ReleasedEvent → State → State
unfolding classify respond insert_alert cache_get transfer_id_hex
check env release s =
    let initiated = cache_get release.transfer_id s.initiated_cache in
    let alert = classify release initiated in
    let (pause_tx, s') = respond env release alert s in
    insert_alert env (transfer_id_hex release) alert (env.detail_json release initiated pause_tx) s'

unfoldable pub verify_release : Env → ReleasedEvent → State → State
unfolding check already_verified transfer_id_hex
verify_release env release s = elim (already_verified env (transfer_id_hex release) s) [
  | true ↦ later s
  | false ↦ check env release (later s)
]
