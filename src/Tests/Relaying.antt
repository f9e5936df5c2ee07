-- ===== src/Tests/Relaying.antt =====
-- The relayer at a network that answers every call, and a database that answers every query.
use web_3_bank.Prelude.{◌≡◌, ◌≢◌, refl, true, some, [], ◌∷◌, All, Bytes, codes, ◌===◌}
use web_3_bank.Eth.Submit.{Node, Call, ok}
use web_3_bank.HotPath.RelayLogs.{HotPathEvent, relay_recorded, get_relay_status}
use web_3_bank.HotPath.Relay.{Env, State, relay_event}
use web_3_bank.HotPath.Safety.{Outcome, relay_event-Outcome}
use web_3_bank.HotPath.Settled.{IsSettled, relay_event-IsSettled}
use web_3_bank.HotPath.Recorded.{CanDecide, relay_event-IsRecorded, same_transaction_dropped}

abbrev pub node : Node
node = record {
  fetch_u256_view = λ t url contract selector. some 500;
  fetch_nonce = λ t url addr. ok 7;
  fetch_gas_params = λ t url. ok (110, 10);
  sign_eip1559_tx = λ tx key. ok (codes "0x02");
  send_raw_transaction = λ t url raw. ok (codes "0xhash");
  wait_for_receipt = λ t url hash. ok [];
}

abbrev pub bank : Bytes
bank = codes "0x00112233445566778899aabbccddeeff00112233"

abbrev pub env : Env
env = record {
  node = node;
  fetch_block_number = λ t url. some 100;
  fetch_logs = λ t url contract topic from to. [];
  database_up = λ t. true;
  rpc_urls = (8453, codes "http://base") ∷ [];
  contract_addresses = (8453, bank) ∷ [];
  relayer_key = some (codes "key");
  relayer_address = some (codes "relayer");
  release_selector = 1 ∷ 2 ∷ 3 ∷ 4 ∷ [];
  pool_depth_selector = 5 ∷ 6 ∷ 7 ∷ 8 ∷ [];
  route_receiver_address = bank;
  hot_path_topic = codes "0xinitiated";
  activation_topic = codes "0xactivation";
  decommission_finalized_topic = codes "0xdecommission";
}

abbrev pub event : HotPathEvent
event = record {
  source_chain_id = 42431;
  source_event_hash = codes "0xaa";
  sender = codes "0xbob";
  recipient = codes "01234567890123456789";
  amount = 300;
  dest_chain_id = 8453;
  event_id = codes "first";
}

-- Another event of the same transaction.
abbrev sibling : HotPathEvent
sibling = record event { event_id = codes "second"; amount = 20 }

abbrev pub start : State
start = record {
  net = record { tick = 0; nonce_cache = []; sent = [] };
  active_chains = 8453 ∷ [];
  decommissioned_chains = [];
  relay_logs = [];
}

relayed :
    get_relay_status (codes "0xaa") (relay_event env event start).relay_logs
    ≡ some (codes "completed")
unfolding relay_event get_relay_status ◌===◌
relayed = refl

relay_event-Outcome_example : Outcome env event start (relay_event env event start)
relay_event-Outcome_example = relay_event-Outcome env event start

relay_event-IsSettled_example : All IsSettled (relay_event env event start).relay_logs
relay_event-IsSettled_example = relay_event-IsSettled env event (λ t. refl) start tt

abbrev decidable : CanDecide env event start
decidable = record {
  rpc_url = codes "http://base";
  bank_addr = bank;
  depth = 500;
  has_rpc = refl;
  has_bank = refl;
  readable = refl;
}

relay_event-IsRecorded_example :
    relay_recorded (codes "0xaa") (relay_event env event start).relay_logs ≡ true
relay_event-IsRecorded_example = relay_event-IsRecorded env event (λ t. refl) start decidable

ids_differ : sibling.event_id ≢ event.event_id
ids_differ e = cc

same_transaction_dropped_example :
    let s' = relay_event env event start in
    let s'' = relay_event env sibling s' in
    (s''.relay_logs ≡ s'.relay_logs) × (s''.net.sent ≡ s'.net.sent)
same_transaction_dropped_example =
    same_transaction_dropped env event sibling (λ t. refl) refl ids_differ start decidable

abbrev pub call : Call
call = record {
  chain_id = 8453;
  rpc_url = codes "http://base";
  contract = bank;
  gas_limit = 120000;
  value = [];
  call_data = codes "data";
  send_error = λ e. e;
}
