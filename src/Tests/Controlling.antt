-- ===== src/Tests/Controlling.antt =====
-- The plan and the control of a drain.
use web_3_bank.Prelude.{
  ℕ, ◌+◌, ◌≡◌, ◌≤◌, refl, sym, ◌∙◌, true, none, some, [], ◌∷◌, ◌++◌, replicate, codes, Bytes, All,
  ◌===◌, arith,
}
use web_3_bank.Eth.Hex.{bytes_to_hex, decode_hex}
use web_3_bank.Eth.Abi.{be_bytes, be_value}
use web_3_bank.Eth.Quantity.{parse_hex_u64}
use web_3_bank.Eth.Rpc.{Wire, hex_call, fetch_balance_of, fetch_address_view}
use web_3_bank.AccountIndex.Events.{AccountEventRow, deposited}
use web_3_bank.Decommission.Ops.{to_lowercase}
use web_3_bank.Decommission.Drain.{DrainPlan}
use web_3_bank.Decommission.DrainIds.{make_drain_id, parse_drain_id, parse_drain_id-make_drain_id}
use web_3_bank.Decommission.Plan.{Runtime, build_drain_plan, holders_for_chain_index}
use web_3_bank.Decommission.PlanHolders.{count_of, bridge_count, run_drain_plan-bridges_once}
use web_3_bank.Decommission.PlanCovers.{HasBalance, build_drain_plan-covers}
use web_3_bank.Decommission.Queries.{has_incomplete_ops, latest_incomplete_pair}
use web_3_bank.Decommission.Server.{
  Server, Headers, State, replied, start_decommission_drain, finish_drain, boot,
}
use web_3_bank.Decommission.Control.{Run, here, next, starts, ends, OneDrain, Run-OneDrain}
use web_3_bank.Decommission.Resumed.{Run-boot}
use web_3_bank.Decommission.Forgotten.{finish_drain_forgets}
use web_3_bank.Decommission.Drain
use web_3_bank.Tests.Draining.{ports, broken, plan, start}

-- Every call is answered by the words 1 and 0.
abbrev pub answer : Bytes
answer = codes "0x" ++ bytes_to_hex (be_bytes 32 1 ++ be_bytes 32 0)

abbrev pub wire : Wire
wire = record {
  eth_block_number = λ t url. some (codes "0x64");
  eth_call = λ t url contract call_data. some answer;
}

abbrev pub holder : Bytes
holder = codes "0x0101010101010101010101010101010101010101"

abbrev pub deposit : AccountEventRow
deposit = record {
  chain_id = 1;
  tx_hash = codes "0xaa";
  log_index = 0;
  event_kind = deposited;
  address_from = none;
  address_to = some holder;
  amount_wei = 1;
  block_number = 42;
  block_time_unix = none;
  correlation = none;
}

abbrev runtime : Runtime
runtime = record {
  wire = wire;
  database_up = λ t. true;
  events = λ t. deposit ∷ [];
  cursors = λ t. (1, 100) ∷ [];
  rpc_urls = (1, codes "url") ∷ [];
  contract_addresses = (1, codes "0xbank") ∷ [];
  index_head_tolerance_blocks = 5;
  route_receiver_address = codes "0xroute";
  signer_address = replicate 20 7;
  balance_of_selector = replicate 4 1;
  sync_usd_selector = replicate 4 2;
  pool_selector = replicate 4 3;
  reserve_selector = replicate 4 4;
  decommission_selector = replicate 4 5;
  has_role_selector = replicate 4 6;
  rebalancer_role = replicate 32 8;
  reserve_rebalancer_role = replicate 32 9;
}

abbrev server : Server
server = record {
  runtime = runtime;
  ports = ports;
  admin_token = some (codes "secret");
  dust_tolerance_wei = codes "0";
}

abbrev headers : Headers
headers = record { admin = none; authorization = some (codes "Bearer secret") }

abbrev booted : State
booted = boot true start

abbrev started : State
started = (start_decommission_drain server headers 1 2 booted).1

begins : (start_decommission_drain server headers 1 2 booted).0 ≡ replied (codes "1-2")
unfolding start_decommission_drain boot ◌===◌ decode_hex bytes_to_hex be_bytes be_value
    parse_hex_u64
begins = refl

Run-OneDrain_example : OneDrain (start_decommission_drain server headers 3 4 started).1
Run-OneDrain_example =
    Run-OneDrain server true start (next (next here (starts headers 1 2)) (starts headers 3 4))

run_drain_plan-bridges_once_example :
    let built = build_drain_plan runtime 1 2 (holder ∷ codes "0xbb" ∷ holder ∷ []) 0 in
    bridge_count holder (Drain.run_drain_plan ports built start).1.bank_calls
    ≤ bridge_count holder start.bank_calls + 1
run_drain_plan-bridges_once_example =
    run_drain_plan-bridges_once ports runtime 1 2 (holder ∷ codes "0xbb" ∷ holder ∷ []) 0 holder
      start

abbrev pub token : Bytes
token = hex_call (replicate 19 0 ++ (1 ∷ []))

funded : HasBalance runtime (codes "url") token holder
unfolding fetch_balance_of hex_call decode_hex bytes_to_hex be_bytes be_value to_lowercase
funded t e = let z : ◌≡◌ {A = ℕ} 1 0 = e in omega (arith, z)

build_drain_plan-covers_example :
    count_of holder (build_drain_plan runtime 1 2 (holders_for_chain_index runtime 0 1) 1).holders
    ≡ 1
unfolding hex_call decode_hex bytes_to_hex be_bytes fetch_address_view
build_drain_plan-covers_example =
    build_drain_plan-covers runtime 1 2 0 deposit [] [] holder (codes "url") (codes "0xbank") token
      refl refl refl refl refl refl refl refl funded

-- An operation that was cut off.
abbrev cut_off : Drain.State
cut_off = record start {
  ops =
      record {
        op_id = codes "decom-1-2-0xaa";
        chain_id = 1;
        dst_chain_id = 2;
        holder_address = codes "0xaa";
        amount = 10;
        status = codes "submitted";
        src_message_id = none;
        dst_tx_hash = none;
        failure_reason = none;
      }
      ∷ [];
}

abbrev resumed : State
resumed =
    (start_decommission_drain server headers 1 2
      (start_decommission_drain server headers 3 4 (boot true cut_off)).1).1

abbrev resumed_plan : DrainPlan
resumed_plan = build_drain_plan runtime 1 2 (holders_for_chain_index runtime 12 1) 13

drains_one : resumed.tasks ≡ (codes "1-2", resumed_plan) ∷ []
unfolding start_decommission_drain boot latest_incomplete_pair ◌===◌ decode_hex bytes_to_hex
    be_bytes be_value parse_hex_u64
drains_one = refl

-- A drain of other chains is refused, the one that was cut off runs and ends, and its row is left.
abbrev after_end :
    Run server
      (boot true cut_off)
      (finish_drain server (codes "1-2") resumed_plan (record resumed { tasks = [] }))
after_end =
    next (next (next here (starts headers 3 4)) (starts headers 1 2))
      (ends (codes "1-2") resumed_plan [] [] drains_one)

row_left :
    (finish_drain server
      (codes "1-2")
      resumed_plan
      (record resumed { tasks = [] })).resumable_drain_id
    ≡ some (codes "1-2")
unfolding finish_drain start_decommission_drain boot latest_incomplete_pair has_incomplete_ops ◌===◌
    decode_hex bytes_to_hex be_bytes be_value parse_hex_u64
row_left = refl

Run-boot_example :
    let s =
      (start_decommission_drain server headers 1 2
        (finish_drain server (codes "1-2") resumed_plan (record resumed { tasks = [] }))).1 in
    (s.resumable_drain_id ≡ some (make_drain_id 1 2))
    × All
        (λ (e : Bytes × DrainPlan). (e.0 ≡ make_drain_id 1 2) × (parse_drain_id e.0 ≡ some (1, 2)))
        s.tasks
unfolding latest_incomplete_pair ◌===◌
Run-boot_example =
    Run-boot server cut_off 1 2 (next after_end (starts headers 1 2))
      ((((tt, tt), tt), λ e. let no : some (codes "1-2") ≡ none = sym row_left ∙ e in cc), tt) refl
      (omega arith) (omega arith)

parse_drain_id-make_drain_id_example :
    parse_drain_id (make_drain_id 42431 18446744073709551615) ≡ some (42431, 18446744073709551615)
parse_drain_id-make_drain_id_example =
    parse_drain_id-make_drain_id 42431 18446744073709551615 (omega arith) (omega arith)

finish_drain_forgets_example :
    (finish_drain (record server { ports = broken }) (codes "1-2") plan booted).resumable_drain_id
    ≡ none
unfolding has_incomplete_ops boot
finish_drain_forgets_example =
    finish_drain_forgets (record server { ports = broken }) (codes "1-2") plan booted (λ t. refl)
      refl
