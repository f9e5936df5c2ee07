-- ===== src/Decommission/Plan.antt =====
-- The plan of a drain and the checks before it, services/treasury/src/decommission_runtime.rs.
use web_3_bank.Prelude.{
  ℕ, ◌+◌, ◌-◌, Bool, false, not, ◌&&◌, ◌||◌, Option, none, some, List, [], ◌∷◌, ◌++◌, ◌==◌, leb,
  get_elem?, replicate, if◌then◌else◌, Bytes, ◌===◌,
}
use web_3_bank.Prelude.Dict.{Dict, get}
use web_3_bank.Eth.Abi.{be_bytes}
use web_3_bank.Eth.Rpc.{
  Wire, hex_call, fetch_block_number, fetch_address_view, fetch_u256_view, fetch_balance_of,
}
use web_3_bank.Watcher.Events.{decode_at_least}
use web_3_bank.AccountIndex.Events.{AccountEventRow, credited}
use web_3_bank.Decommission.Ops.{to_lowercase}
use web_3_bank.Decommission.Drain.{HolderBalance, DrainPlan}

-- What the runtimes are built with, the hashes of the signatures they use, the nodes, and the tables
-- of the account index, each at the time it is read.
pub record Runtime : Type 0 where
  pub wire : Wire
  pub database_up : ℕ → Bool
  pub events : ℕ → List AccountEventRow
  pub cursors : ℕ → Dict ℕ
  pub rpc_urls : Dict Bytes
  pub contract_addresses : Dict Bytes
  pub index_head_tolerance_blocks : ℕ
  pub route_receiver_address : Bytes
  pub signer_address : Bytes
  pub balance_of_selector : Bytes
  pub sync_usd_selector : Bytes
  pub pool_selector : Bytes
  pub reserve_selector : Bytes
  pub decommission_selector : Bytes
  pub has_role_selector : Bytes
  pub rebalancer_role : Bytes
  pub reserve_rebalancer_role : Bytes

-- With the latest block and the cursor.
within_tolerance : ℕ → Option ℕ → Option ℕ → Bool
within_tolerance tolerance none cursor = false
within_tolerance tolerance (some head) none = false
within_tolerance tolerance (some head) (some cursor) = leb (head - cursor) tolerance

unfoldable pub index_fresh_enough : Runtime → ℕ → ℕ → Bool
unfolding within_tolerance fetch_block_number
index_fresh_enough r t chain = elim (get chain r.rpc_urls) [
  | none ↦ false
  | some url ↦
      within_tolerance r.index_head_tolerance_blocks (fetch_block_number r.wire t url)
        (if r.database_up (t + 1) then get chain (r.cursors (t + 1)) else none)
]

unfoldable pub has_text : Bytes → List Bytes → Bool
has_text a [] = false
has_text a (b ∷ rest) = (b === a) || has_text a rest

-- `DISTINCT lower(address_to) .. IS NOT NULL`
unfoldable pub add_holder : Option Bytes → List Bytes → List Bytes
unfolding has_text to_lowercase
add_holder none rest = rest
add_holder (some a) rest =
    let holder = to_lowercase a in if has_text holder rest then rest else holder ∷ rest

-- The kinds of the query are those that add to a balance.
unfoldable pub indexed_holders : ℕ → List AccountEventRow → List Bytes
unfolding add_holder
indexed_holders chain [] = []
indexed_holders chain (e ∷ rows) =
    let rest = indexed_holders chain rows in
    if (e.chain_id == chain) && credited e.event_kind then add_holder e.address_to rest else rest

unfoldable pub holders_for_chain_index : Runtime → ℕ → ℕ → List Bytes
unfolding indexed_holders
holders_for_chain_index r t chain =
    if r.database_up t then indexed_holders chain (r.events t) else []

-- `unwrap_or(U256::ZERO)`
abbrev pub or_zero : Option ℕ → ℕ
or_zero none = 0
or_zero (some n) = n

abbrev is_one : Option ℕ → Bool
is_one none = false
is_one (some n) = n == 1

unfoldable pub encode_uint_arg_call : Bytes → ℕ → Bytes
unfolding be_bytes hex_call
encode_uint_arg_call selector value = hex_call (selector ++ (replicate 24 0 ++ be_bytes 8 value))

-- Draining, and not decommissioned.
draining_flags : Option Bytes → Bool
draining_flags none = false
draining_flags (some b) = is_one (get_elem? b 31) && not (is_one (get_elem? b 63))

-- `rpc_urls.values().next()`
abbrev first_url : Dict Bytes → Option Bytes
first_url [] = none
first_url ((chain, url) ∷ urls) = some url

unfoldable pub is_source_draining : Runtime → ℕ → ℕ → Bool
unfolding draining_flags encode_uint_arg_call decode_at_least
is_source_draining r t source = elim (first_url r.rpc_urls) [
  | none ↦ false
  | some url ↦ draining_flags (
      decode_at_least 64 (
        r.wire.eth_call t url r.route_receiver_address
          (encode_uint_arg_call r.decommission_selector source)))
]

role_flag : Option Bytes → Bool
role_flag none = false
role_flag (some b) = is_one (get_elem? b 31)

unfoldable pub has_role : Runtime → ℕ → Bytes → Bytes → Bytes → Bool
unfolding role_flag hex_call decode_at_least
has_role r t url bank role = role_flag (
    decode_at_least 32 (
      r.wire.eth_call t url bank
        (hex_call (r.has_role_selector ++ (role ++ (replicate 12 0 ++ r.signer_address))))))

-- With the node and the bank of the chain.
required_roles : Runtime → ℕ → Option Bytes → Option Bytes → Bool
unfolding has_role
required_roles r t none bank = false
required_roles r t (some url) none = false
required_roles r t (some url) (some bank) =
    has_role r t url bank r.rebalancer_role && has_role r (t + 1) url bank r.reserve_rebalancer_role

unfoldable pub has_required_roles : Runtime → ℕ → ℕ → Bool
unfolding required_roles
has_required_roles r t source =
    required_roles r t (get source r.rpc_urls) (get source r.contract_addresses)

-- The loop over the holders, with the set of those seen in lower case and the time.
unfoldable pub resolve_unique :
    Runtime → Bytes → Bytes → List Bytes → List Bytes → ℕ → List HolderBalance × ℕ
unfolding has_text to_lowercase fetch_balance_of
resolve_unique r url token seen [] t = ([], t)
resolve_unique r url token seen (holder ∷ holders) t =
    let lowered = to_lowercase holder in
    let old = has_text lowered seen in
    let amount = or_zero (fetch_balance_of r.wire t url token holder r.balance_of_selector) in
    let (rest, t') =
      resolve_unique r url token (if old then seen else lowered ∷ seen) holders
        (if old then t else t + 1) in
    (if old || (amount == 0) then rest else record { address = holder; amount = amount } ∷ rest, t')

abbrev pub empty_plan : ℕ → ℕ → DrainPlan
empty_plan source target = record {
  source_chain = source;
  target_chain = target;
  holders = [];
  pool_amount = 0;
  reserve_amount = 0;
}

-- With the node, the bank and the token of the source chain.
unfoldable pub plan_from :
    Runtime → ℕ → ℕ → List Bytes → ℕ → Bytes → Bytes → Option Bytes → DrainPlan
unfolding resolve_unique fetch_u256_view
plan_from r source target holders t url bank none = empty_plan source target
plan_from r source target holders t url bank (some token) =
    let (resolved, t') = resolve_unique r url token [] holders t in
    record {
      source_chain = source;
      target_chain = target;
      holders = resolved;
      pool_amount = or_zero (fetch_u256_view r.wire t' url bank r.pool_selector);
      reserve_amount = or_zero (fetch_u256_view r.wire (t' + 1) url bank r.reserve_selector);
    }

unfoldable pub plan_at : Runtime → ℕ → ℕ → List Bytes → ℕ → Option Bytes → Option Bytes → DrainPlan
unfolding plan_from fetch_address_view
plan_at r source target holders t none bank = empty_plan source target
plan_at r source target holders t (some url) none = empty_plan source target
plan_at r source target holders t (some url) (some bank) =
    plan_from r source target holders (t + 1) url bank
      (fetch_address_view r.wire t url bank r.sync_usd_selector)

unfoldable pub build_drain_plan : Runtime → ℕ → ℕ → List Bytes → ℕ → DrainPlan
unfolding plan_at
build_drain_plan r source target holders t =
    plan_at r source target holders t (get source r.rpc_urls) (get source r.contract_addresses)
