-- ===== src/Tests/Indexing.antt =====
-- The account index.
use web_3_bank.Prelude.{
  ◌≡◌, ◌≤◌, refl, true, none, some, length, [], ◌∷◌, ◌++◌, replicate, codes, Bytes, ◌===◌,
}
use web_3_bank.Prelude.Dict.{get}
use web_3_bank.Eth.Hex.{bytes_to_hex, decode_hex}
use web_3_bank.Eth.Abi.{be_bytes, be_value}
use web_3_bank.Eth.Quantity.{parse_hex_u64}
use web_3_bank.Watcher.Events.{RpcLog}
use web_3_bank.Watcher.Parsing.{hex_text}
use web_3_bank.AccountIndex.Events.{indexed_balance_on_chain}
use web_3_bank.AccountIndex.Ingest.{Env, State}
use web_3_bank.AccountIndex.Index.{poll_round, poll_rounds}
use web_3_bank.AccountIndex.HomeChains.{push_count, poll_rounds_push_once}

abbrev user : Bytes
user = codes "0x0101010101010101010101010101010101010101"

-- A deposit of 500 in the block 42.
abbrev deposit_log : Bytes → RpcLog
deposit_log hash = record {
  topics = codes "0xDe" ∷ hex_text (replicate 12 0 ++ replicate 20 1) ∷ [];
  payload = hex_text (be_bytes 32 500);
  transaction_hash = hash;
  block_number = codes "0x2a";
  log_index = codes "0x0";
}

abbrev index_env : Env
index_env = record {
  fetch_block_number = λ t url. some 50;
  fetch_logs_any =
      λ t url bank from to. deposit_log (codes "0xaa") ∷ deposit_log (codes "0xbb") ∷ [];
  fetch_logs = λ t url contract topic from to. [];
  fetch_address_view = λ t url bank selector. none;
  fetch_block_timestamp = λ t url block. some 1700;
  connect = λ t uri. true;
  database_up = λ t. true;
  rpc_urls = (8453, codes "url") ∷ [];
  contract_addresses = (8453, codes "0xbank") ∷ [];
  index_from_blocks = none;
  user_endpoint = some (codes "user:50051");
  topics = record {
    deposited_topic = codes "0xde";
    withdrawn_topic = codes "0xwd";
    hot_path_initiated_topic = codes "0xhi";
    hot_path_released_topic = codes "0xhr";
  };
  transfer_topic = codes "0xtr";
  sync_usd_selector = [];
}

abbrev unindexed : State
unindexed = record {
  tick = 0;
  events = [];
  cursors = [];
  sync_usd_cache = [];
  block_time_cache = [];
  pushes = [];
}

two_deposits :
    let s = poll_rounds 2 index_env unindexed in
    ((length s.events ≡ 2) × (push_count user s.pushes ≡ 1))
    × ((get 8453 s.cursors ≡ some 51) × (indexed_balance_on_chain 8453 user s.events ≡ 1000))
unfolding poll_round push_count ◌===◌ decode_hex bytes_to_hex be_bytes be_value parse_hex_u64
    indexed_balance_on_chain
two_deposits = ((refl, refl), (refl, refl))

poll_rounds_push_once_example : push_count user (poll_rounds 2 index_env unindexed).pushes ≤ 1
unfolding push_count
poll_rounds_push_once_example = poll_rounds_push_once index_env user 2 unindexed (λ t. refl) refl
