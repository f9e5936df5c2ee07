-- ===== src/Tests/Polling.antt =====
-- The polling of the hot path.
use web_3_bank.Prelude.{
  ℕ, ◌≡◌, Option, refl, true, none, some, [], ◌∷◌, ◌++◌, ◌==◌, ◌===◌, if◌then◌else◌, replicate,
  codes, arith,
}
use web_3_bank.Prelude.Dict.{contains}
use web_3_bank.Eth.Hex.{bytes_to_hex, decode_hex}
use web_3_bank.Eth.Abi.{be_bytes}
use web_3_bank.Watcher.Events.{RpcLog}
use web_3_bank.Watcher.Parsing.{initiated_log, hex_text}
use web_3_bank.HotPath.Relay.{Env, State, relay_event}
use web_3_bank.HotPath.Polls.{Polled, poll_routes, parse_hot_path_event}
use web_3_bank.HotPath.Parsing.{parse_hot_path_event-initiated_log}
use web_3_bank.HotPath.Rounds.{Turn, turns}
use web_3_bank.HotPath.Scans.{times_scanned, turns-times_scanned}
use web_3_bank.HotPath.Terminal.{Unsent, Run, here, next, relays, polls, Run-Stays}
use web_3_bank.Tests.Relaying.{start, env, event}

-- The RouteReceiver says that chain 8453 is decommissioned, and then that it is active.
abbrev ended_log : RpcLog
ended_log = record {
  topics = codes "0xdecommission" ∷ hex_text (be_bytes 32 8453) ∷ [];
  payload = [];
  transaction_hash = codes "0xcc";
  block_number = codes "0x1";
  log_index = codes "0x0";
}

abbrev route_env : Env
route_env = record env {
  fetch_logs = λ t url contract topic from to.
      if topic === codes "0xdecommission" then ended_log ∷ [] else [];
}

abbrev ended : State
ended = (poll_routes route_env 0 start).1

known : contains 8453 ended.decommissioned_chains ≡ true
unfolding poll_routes ◌===◌ decode_hex bytes_to_hex be_bytes
known = refl

once_more : Run route_env ended (relay_event route_env event (poll_routes route_env 101 ended).1)
once_more = next (next here (polls 101)) (relays event)

Run-Stays_example :
    let t = relay_event route_env event (poll_routes route_env 101 ended).1 in
    (contains 8453 t.decommissioned_chains ≡ true) × Unsent 8453 ended.net t.net
Run-Stays_example = Run-Stays route_env 8453 known once_more

-- The chain's latest block at each time; at time 2 the node does not answer.
abbrev latest : ℕ → Option ℕ
latest t =
    if t == 0
    then some 1000
    else (if t == 1 then some 1400 else (if t == 2 then none else some 3000))

abbrev growing : Env
growing = record env { fetch_block_number = λ t url. latest t }

abbrev unpolled : Polled
unpolled = record { events = []; asked = []; last_block = []; tick = 0 }

-- The turn of a chain with a bank address.
abbrev turn : ℕ → ℕ → Turn
turn chain time = record {
  chain = chain;
  rpc_url = codes "url";
  bank_addr = some (codes "bank");
  time = time;
}

turns-times_scanned_example :
    times_scanned 8453 1500
      (turns growing
        (turn 8453 0 ∷ turn 1 1 ∷ turn 8453 1 ∷ turn 8453 2 ∷ turn 1 2 ∷ turn 8453 3 ∷ [])
        unpolled).asked
    ≡ 1
unfolding times_scanned
turns-times_scanned_example =
    turns-times_scanned growing 8453 1500 (codes "url") (codes "bank") 0 1000
      (turn 1 1 ∷ turn 8453 1 ∷ turn 8453 2 ∷ turn 1 2 ∷ turn 8453 3 ∷ []) unpolled refl refl
      (omega arith, (omega arith, (omega arith, (omega arith, tt))))

parse_hot_path_event-initiated_log_example :
    parse_hot_path_event
      (initiated_log
        (codes "topic")
        (replicate 20 1)
        (replicate 20 2)
        300
        8453
        (replicate 32 3)
        5
        (codes "0xaa")
        (codes "0x1")
        (codes "0x0"))
      42431
    ≡ some (record {
      source_chain_id = 42431;
      source_event_hash = codes "0xaa";
      sender = codes "0x" ++ bytes_to_hex (replicate 20 1);
      recipient = replicate 20 2;
      amount = 300;
      dest_chain_id = 8453;
      event_id = replicate 32 3;
    })
parse_hot_path_event-initiated_log_example =
    parse_hot_path_event-initiated_log (codes "topic") (replicate 20 1) (replicate 20 2)
      (replicate 32 3) (codes "0xaa") (codes "0x1") (codes "0x0") 300 8453 5 42431
      (refl, omega arith) (refl, omega arith) (refl, omega arith) (omega arith) (omega arith)
