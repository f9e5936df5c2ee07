-- ===== src/Tests/Watching.antt =====
-- The watcher, and a submission, at a network that answers every call.
use web_3_bank.Prelude.{
  ℕ, sym, ◌∙◌, ◌≡◌, ◌≢◌, refl, false, true, none, some, [], ◌∷◌, Bytes, codes, ◌===◌, replicate,
}
use web_3_bank.Eth.Hex.{decode_hex}
use web_3_bank.Eth.Submit.{Call, parse_address, submit_with_retry}
use web_3_bank.Eth.Submit.Delivery.{Answers, Delivered, submit_with_retry-Delivered}
use web_3_bank.Watcher.Events.{
  InitiatedEvent, ReleasedEvent, verified, mismatch, cache_get, verify_against,
}
use web_3_bank.Watcher.Verify.{
  Env, State, transfer_id_hex, already_verified, alert_recorded, classify, pause_call,
  effective_rpc_urls, verify_release,
}
use web_3_bank.Watcher.Verdicts.{alert_for, Verdict, verify_release-Verdict}
use web_3_bank.Watcher.Pauses.{CanPause, Pauses, verify_release-Pauses, second_release_unchecked}
use web_3_bank.Tests.Relaying.{node, bank, call, start}

addressed :
    parse_address bank
    ≡ some (
        0x00 ∷ 0x11 ∷ 0x22 ∷ 0x33 ∷ 0x44 ∷ 0x55 ∷ 0x66 ∷ 0x77 ∷ 0x88 ∷ 0x99 ∷ 0xaa ∷ 0xbb ∷ 0xcc
        ∷ 0xdd ∷ 0xee ∷ 0xff ∷ 0x00 ∷ 0x11 ∷ 0x22 ∷ 0x33 ∷ [])
unfolding parse_address decode_hex
addressed = refl

-- The node answers every call to the bank.
abbrev answers : (c : Call) → c.contract ≡ bank → Answers node c
answers c e = record {
  counts = λ t addr. (7, refl);
  prices = λ t. ((110, 10), refl);
  signs = λ tx key. (codes "0x02", refl);
  accepts = λ t raw. (codes "0xhash", refl);
  confirms = λ t hash. ([], refl);
  to =
      0x00 ∷ 0x11 ∷ 0x22 ∷ 0x33 ∷ 0x44 ∷ 0x55 ∷ 0x66 ∷ 0x77 ∷ 0x88 ∷ 0x99 ∷ 0xaa ∷ 0xbb ∷ 0xcc
      ∷ 0xdd ∷ 0xee ∷ 0xff ∷ 0x00 ∷ 0x11 ∷ 0x22 ∷ 0x33 ∷ [];
  addressed = rw e addressed;
}

submit_with_retry-Delivered_example :
    Delivered call start.net
      (submit_with_retry node call (some (codes "key")) (some (codes "me")) start.net)
submit_with_retry-Delivered_example =
    submit_with_retry-Delivered node call (answers call refl) (codes "key") (codes "me") start.net

abbrev env : Env
env = record {
  node = node;
  database_up = λ t. true;
  watcher_rpc_urls = none;
  rpc_urls = (8453, codes "http://base") ∷ [];
  contract_addresses = (8453, bank) ∷ [];
  pauser_key = some (codes "key");
  pauser_address = some (codes "pauser");
  pause_selector = 9 ∷ 8 ∷ 7 ∷ 6 ∷ [];
  detail_json = λ release initiated pause. codes "{}";
}

abbrev recipient : Bytes
recipient = replicate 20 1

abbrev transfer_id : Bytes
transfer_id = replicate 32 2

abbrev initiated : InitiatedEvent
initiated = record {
  source_chain_id = 42431;
  source_tx_hash = codes "0xaa";
  recipient = recipient;
  amount = 300;
}

abbrev observed : ℕ → ReleasedEvent
observed amount = record {
  dest_chain_id = 8453;
  dest_tx_hash = codes "0xbb";
  transfer_id = transfer_id;
  recipient = recipient;
  amount = amount;
}

abbrev watching : State
watching = record { net = start.net; initiated_cache = (transfer_id, initiated) ∷ []; alerts = [] }

verify_release-Verdict_example :
    Verdict env (observed 300) watching (verify_release env (observed 300) watching)
verify_release-Verdict_example = verify_release-Verdict env (observed 300) watching

-- More is released than was initiated.
excess_alert : alert_for (observed 301) watching ≡ mismatch
unfolding classify verify_against cache_get ◌===◌
excess_alert = refl

excess_is_anomaly : alert_for (observed 301) watching ≢ verified
excess_is_anomaly e = let no : mismatch ≡ verified = sym excess_alert ∙ e in cc

excess_is_new : already_verified env (transfer_id_hex (observed 301)) watching ≡ false
unfolding already_verified alert_recorded
excess_is_new = refl

pauser : CanPause env (observed 301)
unfolding pause_call effective_rpc_urls
pauser = record {
  key = codes "key";
  addr = codes "pauser";
  rpc_url = codes "http://base";
  bank_addr = bank;
  has_key = refl;
  has_addr = refl;
  has_rpc = refl;
  has_bank = refl;
  answers = answers (pause_call env (observed 301) (codes "http://base") bank) refl;
}

verify_release-Pauses_example :
    Pauses env
      (observed 301)
      pauser.rpc_url
      pauser.bank_addr
      watching.net
      (verify_release env (observed 301) watching).net
verify_release-Pauses_example =
    verify_release-Pauses env (observed 301) pauser watching excess_is_new excess_is_anomaly

second_release_unchecked_example :
    let s' = verify_release env (observed 300) watching in
    let s'' = verify_release env (observed 301) s' in
    (s''.net.sent ≡ s'.net.sent) × (s''.alerts ≡ s'.alerts)
second_release_unchecked_example =
    second_release_unchecked env (λ t. refl) (observed 300) (observed 301) watching refl
