-- ===== src/Accounts/Pools.antt =====
-- The snapshots of the pools' depths: services/treasury/src/pool_manager.rs and
-- db/pool_snapshot_repo.rs. The rows are in the order of their time, the last first.
use web_3_bank.Prelude.{ℕ, ◌+◌, Bool, Option, none, some, List, [], ◌∷◌, ◌==◌, if◌then◌else◌, Bytes}
use web_3_bank.Prelude.Dict.{Dict, get}
use web_3_bank.Eth.Rpc.{Wire, fetch_u256_view}

pub record Env : Type 0 where
  pub wire : Wire
  pub database_up : ℕ → Bool
  pub rpc_urls : Dict Bytes
  pub contract_addresses : Dict Bytes
  pub pool_depth_selector : Bytes

pub record Snapshot : Type 0 where
  pub chain_id : ℕ
  pub depth_wei : ℕ

pub record State : Type 0 where
  pub tick : ℕ
  pub snapshots : List Snapshot

-- With the depth that was read.
unfoldable pub record_depth : Env → ℕ → Option ℕ → State → State
record_depth env chain none s = s
record_depth env chain (some depth) s = record s {
  tick = s.tick + 1;
  snapshots =
      if env.database_up s.tick
      then record { chain_id = chain; depth_wei = depth } ∷ s.snapshots
      else s.snapshots;
}

abbrev pub later : State → State
later s = record s { tick = s.tick + 1 }

unfoldable pub poll_chain : Env → ℕ → Bytes → Option Bytes → State → State
unfolding record_depth fetch_u256_view
poll_chain env chain url none s = s
poll_chain env chain url (some bank) s =
    record_depth env chain (fetch_u256_view env.wire s.tick url bank env.pool_depth_selector)
      (later s)

unfoldable pub poll_chains : Env → Dict Bytes → State → State
unfolding poll_chain
poll_chains env [] s = s
poll_chains env ((chain, url) ∷ urls) s =
    poll_chains env urls (poll_chain env chain url (get chain env.contract_addresses) s)

-- A round of `poll_loop`.
unfoldable pub poll_depths : Env → State → State
unfolding poll_chains
poll_depths env s = poll_chains env env.rpc_urls s

unfoldable pub latest_depth : ℕ → List Snapshot → Option ℕ
latest_depth chain [] = none
latest_depth chain (r ∷ rows) =
    if r.chain_id == chain then some r.depth_wei else latest_depth chain rows

-- None is the answer that there is no snapshot.
unfoldable pub get_pool_depth : Env → ℕ → State → Option ℕ
unfolding latest_depth
get_pool_depth env chain s = if env.database_up s.tick then latest_depth chain s.snapshots else none
