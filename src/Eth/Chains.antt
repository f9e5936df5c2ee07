-- ===== src/Eth/Chains.antt =====
-- The chains of a cycle and their depths, in `run_rebalance_cycle` of services/treasury/src/cold_path.rs
-- and `run_planner_cycle` of reserve_path.rs.
use web_3_bank.Prelude.{ℕ, ◌+◌, not, ◌&&◌, Option, none, some, List, [], ◌∷◌, if◌then◌else◌, Bytes}
use web_3_bank.Prelude.Dict.{Dict, get, contains}
use web_3_bank.Eth.Submit.{Node}
use web_3_bank.Rebalance.{Pool}

-- A chain that takes part in a cycle.
pub record Chain : Type 0 where
  pub chain_id : ℕ
  pub rpc_url : Bytes
  pub bank_addr : Bytes

-- The active chains with an RPC URL and a bank contract.
unfoldable pub cycle_chains : List ℕ → List ℕ → Dict Bytes → Dict Bytes → List Chain
cycle_chains active decommissioned contracts [] = []
cycle_chains active decommissioned contracts ((chain, rpc_url) ∷ urls) =
    let rest = cycle_chains active decommissioned contracts urls in
    let usable = contains chain active && not (contains chain decommissioned) in
    if usable
    then elim (get chain contracts) [
      | none ↦ rest
      | some addr ↦ record { chain_id = chain; rpc_url = rpc_url; bank_addr = addr } ∷ rest
    ]
    else rest

-- The depths of the chains, and the time after; a chain that cannot be read ends the cycle.
unfoldable pub read_depths : Node → Bytes → ℕ → List Chain → Option (List Pool) × ℕ
read_depths node selector tick [] = (some [], tick)
read_depths node selector tick (c ∷ chains) =
    let (rest, after) = read_depths node selector (tick + 1) chains in
    elim (node.fetch_u256_view tick c.rpc_url c.bank_addr selector) [
      | none ↦ (none, tick + 1)
      | some d ↦ elim rest [
        | none ↦ (none, after)
        | some ps ↦ (some (record { chain = c.chain_id; amount = d } ∷ ps), after)
      ]
    ]
