-- ===== src/ReservePath/Relayer.antt =====
-- The relayer of services/treasury/src/reserve_path.rs.
use web_3_bank.Prelude.{
  ℕ, Bool, false, not, ◌&&◌, ◌||◌, Option, none, some, List, [], ◌∷◌, ◌==◌, if◌then◌else◌, Bytes,
  codes,
}
use web_3_bank.Prelude.Dict.{get}
use web_3_bank.Eth.Hex.{decode_hex}
use web_3_bank.Eth.Messages.{eq_ignore_ascii_case}
use web_3_bank.Eth.Submit.{Result, ok, err, Logs}
use web_3_bank.ReservePath.ReserveOps.{
  ReserveRow, list_awaiting_attestation, update_attestation, update_relayed, update_failed,
}
use web_3_bank.ReservePath.Calls.{
  CircleMessage, Env, State, later, write, submit_bridge, bridge_in_call,
}

-- `starts_with("0x")`
starts_with_0x : Bytes → Bool
starts_with_0x [] = false
starts_with_0x (a ∷ []) = false
starts_with_0x (a ∷ b ∷ s) = (a == b'0') && (b == b'x')

-- The first message, if both fields are texts and the attestation is ready.
unfoldable pub ready : CircleMessage → Option (Bytes × Bytes)
unfolding eq_ignore_ascii_case starts_with_0x
ready m = elim m.attestation [
  | none ↦ none
  | some attestation ↦ elim m.message [
    | none ↦ none
    | some message ↦
        if eq_ignore_ascii_case attestation (codes "PENDING") || not (starts_with_0x attestation)
        then none
        else some (message, attestation)
  ]
]

-- `fetch_circle_attestation`, from the array of the answer on.
unfoldable pub first_ready : Option (List CircleMessage) → Option (Bytes × Bytes)
unfolding ready
first_ready none = none
first_ready (some []) = none
first_ready (some (m ∷ messages)) = ready m

-- The row after `bridgeIn`.
unfoldable pub settle_relay : Env → Bytes → Result (Bytes × Logs) → State → State
settle_relay env id (ok (tx, logs)) s = write env (update_relayed id tx) s
settle_relay env id (err e) s = write env (update_failed id) s

-- With the decoded message and attestation; a text that does not decode fails the operation.
unfoldable pub dispatch :
    Env → ReserveRow → Bytes → Bytes → Option Bytes → Option Bytes → State → State
unfolding settle_relay submit_bridge bridge_in_call
dispatch env row rpc_url adapter none attestation s = write env (update_failed row.op_id) s
dispatch env row rpc_url adapter (some message) none s = write env (update_failed row.op_id) s
dispatch env row rpc_url adapter (some message) (some attestation) s =
    let (r, net) =
      submit_bridge env (bridge_in_call env row.dest_chain_id rpc_url adapter message attestation)
        s.net in
    settle_relay env row.op_id r (record s { net = net })

-- `reserve_bridge_addresses`, which may be missing as a whole.
unfoldable pub adapter_of : Env → ℕ → Option Bytes
adapter_of env chain = elim env.reserve_bridge_addresses [
  | none ↦ none
  | some bridges ↦ get chain bridges
]

-- From the stored attestation on; without an RPC URL or an adapter it returns.
unfoldable pub with_attestation : Env → ReserveRow → Bytes → Bytes → State → State
unfolding dispatch adapter_of decode_hex
with_attestation env row message attestation s = elim (get row.dest_chain_id env.rpc_urls) [
  | none ↦ s
  | some rpc_url ↦ elim (adapter_of env row.dest_chain_id) [
    | none ↦ s
    | some adapter ↦
        dispatch env row rpc_url adapter (decode_hex message) (decode_hex attestation) s
  ]
]

-- With Circle's answer.
unfoldable pub on_answer : Env → ReserveRow → Option (Bytes × Bytes) → State → State
unfolding with_attestation
on_answer env row none s = s
on_answer env row (some (message, attestation)) s =
    with_attestation env row message attestation
      (write env (update_attestation row.op_id message attestation) s)

-- `cctp_domains`, which may be missing as a whole.
unfoldable pub domain_of : Env → ℕ → Option ℕ
domain_of env chain = elim env.cctp_domains [ none ↦ none | some domains ↦ get chain domains ]

-- With the CCTP domain of the source chain.
unfoldable pub on_domain : Env → ReserveRow → Bytes → Option ℕ → State → State
unfolding on_answer first_ready
on_domain env row tx none s = s
on_domain env row tx (some domain) s =
    on_answer env row (first_ready (env.circle s.net.tick domain tx)) (later s)

-- With the hash of the source transaction.
unfoldable pub on_source_tx : Env → ReserveRow → Option Bytes → State → State
unfolding on_domain domain_of
on_source_tx env row none s = s
on_source_tx env row (some tx) s = on_domain env row tx (domain_of env row.source_chain_id) s

unfoldable pub relay_one : Env → ReserveRow → State → State
unfolding on_source_tx
relay_one env row s = on_source_tx env row row.source_tx_hash s

unfoldable pub relay_rows : Env → List ReserveRow → State → State
unfolding relay_one
relay_rows env [] s = s
relay_rows env (row ∷ rows) s = relay_rows env rows (relay_one env row s)

-- A round of `relayer_loop`; a failed query reads as no rows.
unfoldable pub relayer_round : Env → State → State
unfolding relay_rows list_awaiting_attestation
relayer_round env s =
    relay_rows env
      (if env.database_up s.net.tick then list_awaiting_attestation s.reserve_ops else []) (later s)
