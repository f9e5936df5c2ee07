-- ===== src/Tests/Draining.antt =====
-- A drain of two holders, and its restart.
use web_3_bank.Prelude.{◌≡◌, refl, true, false, none, some, [], ◌∷◌, codes, ◌===◌}
use web_3_bank.Decommission.Ops.{contains_holder}
use web_3_bank.Decommission.Drain.{
  DrainPlan, drained, done, refused, Ports, State, run_drain_plan, complete_alert,
}
use web_3_bank.Eth.Hex.{decode_hex}
use web_3_bank.Eth.Submit.{Net, err, http}
use web_3_bank.Decommission.Bank.{BankRuntime, bridge_holder, submit_bank_call}
use web_3_bank.Decommission.StaleNonce.{is_called, calls, submit_bank_call-stuck}
use web_3_bank.Tests.Relaying.{node, bank}
use web_3_bank.Decommission.Bridges.{DrainEnd, run_drain_plan-DrainEnd}
use web_3_bank.Decommission.Failures.{refused_drain_completes}

abbrev pub ports : Ports
ports = record {
  database_up = λ t. true;
  is_chain_active = λ t chain. true;
  holders_for_chain = λ t chain. [];
  balance_of = λ t chain holder. 0;
  bridge_holder = λ t source target holder amount.
      done (record { src_message_id = some (codes "0xmsg"); dst_tx_hash = none });
  set_user_home_chain = λ t holder chain. done tt;
}

abbrev pub broken : Ports
broken = record ports { bridge_holder = λ t source target holder amount. refused (codes "no") }

abbrev pub plan : DrainPlan
plan = record {
  source_chain = 1;
  target_chain = 2;
  holders =
      record { address = codes "0xAA"; amount = 10 }
      ∷ record { address = codes "0xbb"; amount = 20 }
      ∷ [];
  pool_amount = 5;
  reserve_amount = 0;
}

abbrev pub start : State
start = record { tick = 0; ops = []; bank_calls = []; home_updates = []; alerts = [] }

drains_two : (run_drain_plan ports plan start).0 ≡ drained 2
unfolding run_drain_plan
drains_two = refl

-- On a restart the addresses are compared in lowercase.
restart_skips : contains_holder (codes "0xAA") (codes "0xaa" ∷ []) ≡ true
unfolding contains_holder ◌===◌
restart_skips = refl

restart_drains_none : (run_drain_plan ports plan (run_drain_plan ports plan start).1).0 ≡ drained 0
unfolding run_drain_plan ◌===◌
restart_drains_none = refl

run_drain_plan-DrainEnd_example :
    DrainEnd ports plan start
      (run_drain_plan ports plan start).0
      (run_drain_plan ports plan start).1
run_drain_plan-DrainEnd_example = run_drain_plan-DrainEnd ports plan start

refused_drain_completes_example :
    let (outcome, s') = run_drain_plan broken plan start in
    (outcome ≡ drained 0) × (s'.alerts ≡ complete_alert ∷ []) × (s'.home_updates ≡ [])
refused_drain_completes_example =
    refused_drain_completes broken (λ t source target holder amount. (codes "no", refl)) plan start
      refl

abbrev bridging : BankRuntime
bridging = record {
  node = node;
  rpc_urls = (1, codes "url") ∷ [];
  contract_addresses = (1, bank) ∷ [];
  signer = codes "key";
  signer_address = codes "0xme";
  rebalance_selector = [];
  bridge_reserve_selector = [];
  ccip_topic = codes "0xccip";
}

abbrev quiet : Net
quiet = record { tick = 0; nonce_cache = []; sent = [] }

-- The nonce is fetched, and advances with the receipt.
bridged : (bridge_holder bridging 1 2 10 quiet).1.nonce_cache ≡ (1, 8) ∷ []
unfolding bridge_holder decode_hex
bridged = refl

abbrev stale : BankRuntime
stale = record bridging { node = record node { send_raw_transaction = λ t url raw. err http } }

submit_bank_call-stuck_example :
    let n : Net = record quiet { nonce_cache = (1, 6) ∷ [] } in
    is_called (submit_bank_call stale 1 (codes "again") (calls stale 1 (codes "once" ∷ []) n)).0
    ≡ false
submit_bank_call-stuck_example =
    submit_bank_call-stuck stale 6 (λ t url raw tx signed same. (http, refl)) 1 (codes "once" ∷ [])
      (codes "again") (record quiet { nonce_cache = (1, 6) ∷ [] }) refl
