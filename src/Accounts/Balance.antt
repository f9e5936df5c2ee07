-- ===== src/Accounts/Balance.antt =====
-- The balance of a user over all chains, services/treasury/src/account_balance.rs. The chains are read
-- one after the other, while the service starts all its reads at once and waits for them in order.
use web_3_bank.Prelude.{
  ℕ, ◌+◌, ◌-◌, Bool, true, false, Option, none, some, List, [], ◌∷◌, ltb, if◌then◌else◌, Bytes,
  ◌===◌,
}
use web_3_bank.Prelude.Dict.{Dict, get, insert}
use web_3_bank.Eth.Rpc.{Wire, fetch_address_view, fetch_balance_of}
use web_3_bank.Domain.Balance.{ChainBalanceContribution, aggregate_balances}
use web_3_bank.Decommission.Ops.{to_lowercase}
use web_3_bank.AccountIndex.Events.{AccountEventRow, indexed_balance_on_chain}

-- What the service is built with, the answers of the nodes and of the hot path, the table, whether
-- the database answers, and the clock in milliseconds.
pub record Env : Type 0 where
  pub wire : Wire
  pub database_up : ℕ → Bool
  pub events : ℕ → List AccountEventRow
  pub is_chain_decommissioned : ℕ → ℕ → Bool
  pub clock : ℕ → ℕ
  pub rpc_urls : Dict Bytes
  pub contract_addresses : Dict Bytes
  pub balance_of_selector : Bytes
  pub sync_usd_selector : Bytes

pub record CachedBalance : Type 0 where
  pub balance_wei : ℕ
  pub degraded : Bool
  pub fetched_at : ℕ

-- The time and the two caches.
pub record State : Type 0 where
  pub tick : ℕ
  pub cache : List (Bytes × CachedBalance)
  pub sync_usd_cache : Dict Bytes

-- `BALANCE_CACHE_TTL`
abbrev pub balance_cache_ttl : ℕ
balance_cache_ttl = 4000

abbrev pub later : State → State
later s = record s { tick = s.tick + 1 }

abbrev keep_token : ℕ → Option Bytes → State → State
keep_token chain none s = s
keep_token chain (some token) s = record s { sync_usd_cache = insert chain token s.sync_usd_cache }

unfoldable pub token_of : Env → ℕ → Bytes → Bytes → State → Option Bytes × State
unfolding fetch_address_view
token_of env chain url bank s = elim (get chain s.sync_usd_cache) [
  | some token ↦ (some token, s)
  | none ↦
      let found = fetch_address_view env.wire s.tick url bank env.sync_usd_selector in
      (found, keep_token chain found (later s))
]

-- With the live balance; the estimate of a failed query reads as 0.
unfoldable pub contribution :
    Env → ℕ → Bytes → Option ℕ → State → Option ChainBalanceContribution × State
unfolding indexed_balance_on_chain
contribution env chain user (some live) s =
    (some (record { amount = live; used_fallback = false }), s)
contribution env chain user none s =
    let amount =
      if env.database_up s.tick
      then indexed_balance_on_chain chain user (env.events s.tick)
      else 0 in
    (some (record { amount = amount; used_fallback = true }), later s)

-- With the address of the token.
unfoldable pub read_from_token :
    Env → ℕ → Bytes → Bytes → Option Bytes × State → Option ChainBalanceContribution × State
unfolding fetch_balance_of contribution
read_from_token env chain url user (none, s) = (none, s)
read_from_token env chain url user (some token, s) =
    contribution env chain user
      (fetch_balance_of env.wire s.tick url token user env.balance_of_selector) (later s)

unfoldable pub read_chain_balance :
    Env → ℕ → Bytes → Bytes → Bytes → State → Option ChainBalanceContribution × State
unfolding read_from_token token_of
read_chain_balance env chain url bank user s =
    read_from_token env chain url user (token_of env chain url bank s)

abbrev pub add_contribution :
    Option ChainBalanceContribution
    → List ChainBalanceContribution × State
    → List ChainBalanceContribution × State
add_contribution none r = r
add_contribution (some c) (cs, s) = (c ∷ cs, s)

-- The chains of the configuration that have a bank and are not decommissioned.
unfoldable pub read_chains :
    Env → Bytes → Dict Bytes → State → List ChainBalanceContribution × State
unfolding read_chain_balance
read_chains env user [] s = ([], s)
read_chains env user ((chain, url) ∷ urls) s = elim (get chain env.contract_addresses) [
  | none ↦ read_chains env user urls s
  | some bank ↦
      let gone = env.is_chain_decommissioned s.tick chain in
      let (c, s') =
        if gone then (none, later s) else read_chain_balance env chain url bank user (later s) in
      add_contribution c (read_chains env user urls s')
]

unfoldable pub fetch_aggregated_balance : Env → Bytes → State → (ℕ × Bool) × State
unfolding read_chains aggregate_balances
fetch_aggregated_balance env user s =
    let (cs, s') = read_chains env user env.rpc_urls s in (aggregate_balances cs, s')

abbrev pub cache_get : Bytes → List (Bytes × CachedBalance) → Option CachedBalance
cache_get key [] = none
cache_get key ((k, entry) ∷ cache) = if k === key then some entry else cache_get key cache

abbrev pub cache_insert :
    Bytes → CachedBalance → List (Bytes × CachedBalance) → List (Bytes × CachedBalance)
cache_insert key entry [] = (key, entry) ∷ []
cache_insert key entry ((k, old) ∷ cache) =
    if k === key then (k, entry) ∷ cache else (k, old) ∷ cache_insert key entry cache

-- A balance that is read anew, and kept.
unfoldable pub refreshed : Env → Bytes → State → (ℕ × Bool) × State
unfolding fetch_aggregated_balance to_lowercase
refreshed env user s =
    let ((balance, degraded), s') = fetch_aggregated_balance env user s in
    (
      (balance, degraded),
      record s' {
        cache =
            cache_insert (to_lowercase user)
              (record {
                balance_wei = balance;
                degraded = degraded;
                fetched_at = env.clock s'.tick;
              })
              s'.cache;
      },
    )

-- With the entry of the cache.
unfoldable pub balance_from : Env → Bytes → Option CachedBalance → State → (ℕ × Bool) × State
unfolding refreshed
balance_from env user none s = refreshed env user s
balance_from env user (some entry) s =
    if ltb (env.clock s.tick - entry.fetched_at) balance_cache_ttl
    then ((entry.balance_wei, entry.degraded), later s)
    else refreshed env user (later s)

unfoldable pub get_balance : Env → Bytes → State → (ℕ × Bool) × State
unfolding balance_from to_lowercase
get_balance env user s = balance_from env user (cache_get (to_lowercase user) s.cache) s
