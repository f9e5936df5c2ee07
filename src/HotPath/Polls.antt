-- ===== src/HotPath/Polls.antt =====
-- The polling loops of services/treasury/src/hot_path.rs, one round at a time, and the parsing of an
-- event.
use web_3_bank.Prelude.{
  ℕ, ◌+◌, ◌-◌, max, Option, none, some, List, [], ◌∷◌, ◌++◌, ◌==◌, leb, if◌then◌else◌, Bytes, codes,
  length, get_elem?,
}
use web_3_bank.Prelude.Dict.{Dict, get, insert, contains, without}
use web_3_bank.Eth.Hex.{bytes_to_hex}
use web_3_bank.Eth.Abi.{be_value}
use web_3_bank.Eth.Activation.{decode_active_chains_from_event, decode_indexed_u64_topic}
use web_3_bank.Watcher.Events.{RpcLog, decode_at_least, slice}
use web_3_bank.HotPath.RelayLogs.{HotPathEvent}
use web_3_bank.HotPath.Relay.{Env, State, later}

-- With the sender's word, the recipient's, and the data.
unfoldable pub hot_path_event_of :
    RpcLog → ℕ → Option Bytes → Option Bytes → Option Bytes → Option HotPathEvent
unfolding be_value bytes_to_hex
hot_path_event_of log chain none to bytes = none
hot_path_event_of log chain (some sender) none bytes = none
hot_path_event_of log chain (some sender) (some to) none = none
hot_path_event_of log chain (some sender) (some to) (some bytes) = some (record {
  source_chain_id = chain;
  source_event_hash = log.transaction_hash;
  sender = codes "0x" ++ bytes_to_hex (slice 12 20 sender);
  recipient = slice 12 20 to;
  amount = be_value (slice 0 32 bytes);
  dest_chain_id = be_value (slice 56 8 bytes);
  event_id = slice 64 32 bytes;
})

unfoldable pub parse_hot_path_event : RpcLog → ℕ → Option HotPathEvent
unfolding hot_path_event_of decode_at_least
parse_hot_path_event log chain =
    if leb 3 (length log.topics)
    then hot_path_event_of log chain (decode_at_least 32 (get_elem? log.topics 1))
        (decode_at_least 32 (get_elem? log.topics 2)) (decode_at_least 128 (some log.payload))
    else none

unfoldable pub max_block_range : ℕ
max_block_range = 2000

-- The first block of a scan up to a block, with the cursor; the first poll looks at that block alone.
unfoldable pub scan_from : Option ℕ → ℕ → ℕ
unfolding max_block_range
scan_from none to_block = max to_block (to_block - max_block_range)
scan_from (some last) to_block = max last (to_block - max_block_range)

add_event : Option HotPathEvent → List HotPathEvent → List HotPathEvent
add_event none events = events
add_event (some event) events = event ∷ events

unfoldable pub parse_logs : ℕ → List RpcLog → List HotPathEvent
unfolding add_event parse_hot_path_event
parse_logs chain [] = []
parse_logs chain (log ∷ logs) = add_event (parse_hot_path_event log chain) (parse_logs chain logs)

-- What a round leaves: the events whose relay it spawned, the ranges it asked the nodes for, each
-- with its chain, the cursors, and the time.
pub record Polled : Type 0 where
  pub events : List HotPathEvent
  pub asked : List (ℕ × (ℕ × ℕ))
  pub last_block : Dict ℕ
  pub tick : ℕ

-- With the chain's latest block.
unfoldable pub poll_to : Env → ℕ → Bytes → Bytes → Option ℕ → Polled → Polled
unfolding parse_logs scan_from
poll_to env chain rpc_url bank_addr none p = p
poll_to env chain rpc_url bank_addr (some to_block) p =
    let from = scan_from (get chain p.last_block) to_block in
    record {
      events =
          p.events
          ++ parse_logs chain
              (env.fetch_logs p.tick rpc_url bank_addr env.hot_path_topic from to_block);
      asked = (chain, (from, to_block)) ∷ p.asked;
      last_block = insert chain (to_block + 1) p.last_block;
      tick = p.tick + 1;
    }

unfoldable pub poll_chain : Env → ℕ → Bytes → Option Bytes → Polled → Polled
unfolding poll_to
poll_chain env chain rpc_url none p = p
poll_chain env chain rpc_url (some bank_addr) p =
    poll_to env chain rpc_url bank_addr (env.fetch_block_number p.tick rpc_url)
      (record p { tick = p.tick + 1 })

unfoldable pub poll_chains : Env → Dict Bytes → Polled → Polled
unfolding poll_chain
poll_chains env [] p = p
poll_chains env ((chain, rpc_url) ∷ urls) p =
    poll_chains env urls (poll_chain env chain rpc_url (get chain env.contract_addresses) p)

-- A round of `poll_events_loop`.
unfoldable pub poll_events : Env → Dict ℕ → State → Polled
unfolding poll_chains
poll_events env last_block s =
    poll_chains env env.rpc_urls
      (record { events = []; asked = []; last_block = last_block; tick = s.net.tick })

-- The set of the last log that decodes.
unfoldable pub apply_activations : List RpcLog → List ℕ → List ℕ
unfolding decode_active_chains_from_event
apply_activations [] active = active
apply_activations (log ∷ logs) active =
    apply_activations logs
      (elim (decode_active_chains_from_event log.payload) [ none ↦ active | some chains ↦ chains ])

-- `HashSet::insert`
abbrev pub add_member : ℕ → List ℕ → List ℕ
add_member k s = if contains k s then s else k ∷ s

unfoldable pub decommission : Option ℕ → State → State
decommission none s = s
decommission (some chain) s = record s {
  decommissioned_chains = add_member chain s.decommissioned_chains;
  active_chains = without chain s.active_chains;
}

-- The chain of the second topic; a log without one is skipped.
unfoldable pub decommission_topic : Option Bytes → State → State
unfolding decommission decode_indexed_u64_topic
decommission_topic none s = s
decommission_topic (some topic) s = decommission (decode_indexed_u64_topic topic) s

unfoldable pub apply_decommissions : List RpcLog → State → State
unfolding decommission_topic
apply_decommissions [] s = s
apply_decommissions (log ∷ logs) s =
    apply_decommissions logs (decommission_topic (get_elem? log.topics 1) s)

-- The logs of the RouteReceiver; a cursor of 0 stands for none.
unfoldable pub route_logs : Env → Bytes → Bytes → ℕ → ℕ → ℕ → List RpcLog
route_logs env rpc_url topic last to_block tick =
    env.fetch_logs tick rpc_url env.route_receiver_address topic
      (if last == 0 then to_block else last) to_block

unfoldable pub poll_routes_to : Env → Bytes → ℕ → Option ℕ → State → ℕ × State
unfolding apply_activations apply_decommissions route_logs
poll_routes_to env rpc_url last none s = (last, s)
poll_routes_to env rpc_url last (some to_block) s =
    let logs = route_logs env rpc_url env.activation_topic last to_block s.net.tick in
    let s' = record (later s) { active_chains = apply_activations logs s.active_chains } in
    let gone = route_logs env rpc_url env.decommission_finalized_topic last to_block s'.net.tick in
    (to_block + 1, apply_decommissions gone (later s'))

-- A round of `poll_route_receiver_loop`, with its cursor; without an RPC URL the loop ends at once.
unfoldable pub poll_routes : Env → ℕ → State → ℕ × State
unfolding poll_routes_to
poll_routes env last s = elim env.rpc_urls [
  | [] ↦ (last, s)
  | (chain, rpc_url) ∷ urls ↦
      poll_routes_to env rpc_url last (env.fetch_block_number s.net.tick rpc_url) (later s)
]
