-- ===== src/Accounts/Cache.antt =====
-- How old a balance of services/treasury/src/account_balance.rs may be.
use web_3_bank.Prelude.{
  ℕ, ◌-◌, ◌<◌, ◌≤◌, ◌≡◌, refl, sym, ap, ◌∙◌, Bool, Bool-cases, Option-cases, Option, none, some,
  inl, inr, List, [], ◌∷◌, ltb, ltb→lt, Bytes, ◌===◌, ===→eq, All, arith,
}
use web_3_bank.Prelude.Dict.{Dict, get}
use web_3_bank.Eth.Rpc.{fetch_address_view, fetch_balance_of}
use web_3_bank.Domain.Balance.{ChainBalanceContribution}
use web_3_bank.Decommission.Ops.{to_lowercase}
use web_3_bank.Accounts.Balance.{
  Env, CachedBalance, State, balance_cache_ttl, later, token_of, contribution, read_from_token,
  read_chain_balance, add_contribution, read_chains, fetch_aggregated_balance, cache_get,
  cache_insert, refreshed, balance_from, get_balance,
}

-- An entry of the cache is what was read for its address, at its time.
record IsRead (env : Env) (entry : Bytes × CachedBalance) : Type 0 where
  user : Bytes
  before : State
  key : to_lowercase user ≡ entry.0
  read : (fetch_aggregated_balance env user before).0 ≡ (entry.1.balance_wei, entry.1.degraded)
  time : env.clock (fetch_aggregated_balance env user before).1.tick ≡ entry.1.fetched_at

abbrev AllRead : Env → List (Bytes × CachedBalance) → Type 0
AllRead env = All (IsRead env)

cache_insert-AllRead :
    (env : Env) (key : Bytes) (entry : CachedBalance) (cache : List (Bytes × CachedBalance))
    → IsRead env (key, entry)
    → AllRead env cache
    → AllRead env (cache_insert key entry cache)
cache_insert-AllRead env key entry [] r h = (r, tt)
cache_insert-AllRead env key entry ((k, old) ∷ cache) r h = elim (Bool-cases (k === key)) [
  | inl own ↦ let same : k ≡ key = ===→eq k key own in rw (own, same) (r, h.1)
  | inr other ↦ rw other (h.0, cache_insert-AllRead env key entry cache r h.1)
]

cache_get-IsRead :
    (env : Env) (key : Bytes) (cache : List (Bytes × CachedBalance)) (entry : CachedBalance)
    → cache_get key cache ≡ some entry
    → AllRead env cache
    → IsRead env (key, entry)
cache_get-IsRead env key [] entry e h = cc
cache_get-IsRead env key ((k, old) ∷ cache) entry e h = elim (Bool-cases (k === key)) [
  | inl own ↦
      let same : k ≡ key = ===→eq k key own in
      let e' : some old ≡ some entry = rw own at e in
      let found : old ≡ entry = cc in
      record {
        user = h.0.user;
        before = h.0.before;
        key = h.0.key ∙ same;
        read = h.0.read ∙ ap (λ (x : CachedBalance). (x.balance_wei, x.degraded)) found;
        time = h.0.time ∙ ap (λ (x : CachedBalance). x.fetched_at) found;
      }
  | inr other ↦ cache_get-IsRead env key cache entry (rw other at e) h.1
]

-- Reading the chains leaves the cache of the balances as it is.
token_of-cache :
    (env : Env) (chain : ℕ) (url bank : Bytes) (s : State)
    → (token_of env chain url bank s).1.cache ≡ s.cache
unfolding token_of
token_of-cache env chain url bank s = elim (Option-cases (get chain s.sync_usd_cache)) [
  | inr (token, known) ↦ rw (known, token_of) refl
  | inl unknown ↦
      rw (unknown, token_of)
        (elim (Option-cases (fetch_address_view env.wire s.tick url bank env.sync_usd_selector)) [
          | inr (token, found) ↦ rw found refl
          | inl lost ↦ rw lost refl
        ])
]

contribution-cache :
    (env : Env) (chain : ℕ) (user : Bytes) (live : Option ℕ) (s : State)
    → (contribution env chain user live s).1.cache ≡ s.cache
unfolding contribution
contribution-cache env chain user (some live) s = refl
contribution-cache env chain user none s = refl

read_from_token-cache :
    (env : Env) (chain : ℕ) (url user : Bytes) (token : Option Bytes) (s : State)
    → (read_from_token env chain url user (token, s)).1.cache ≡ s.cache
unfolding read_from_token
read_from_token-cache env chain url user none s = refl
read_from_token-cache env chain url user (some token) s =
    contribution-cache env chain user
      (fetch_balance_of env.wire s.tick url token user env.balance_of_selector) (later s)

read_chain_balance-cache :
    (env : Env) (chain : ℕ) (url bank user : Bytes) (s : State)
    → (read_chain_balance env chain url bank user s).1.cache ≡ s.cache
unfolding read_chain_balance
read_chain_balance-cache env chain url bank user s =
    let (token, s') = token_of env chain url bank s in
    read_from_token-cache env chain url user token s' ∙ token_of-cache env chain url bank s

add_contribution-cache :
    (c : Option ChainBalanceContribution) (cs : List ChainBalanceContribution) (s : State)
    → (add_contribution c (cs, s)).1.cache ≡ s.cache
add_contribution-cache none cs s = refl
add_contribution-cache (some c) cs s = refl

read_chains-cache :
    (env : Env) (user : Bytes) (urls : Dict Bytes) (s : State)
    → (read_chains env user urls s).1.cache ≡ s.cache
unfolding read_chains
read_chains-cache env user [] s = refl
read_chains-cache env user ((chain, url) ∷ urls) s =
    elim (Option-cases (get chain env.contract_addresses)) [
      | inl unset ↦ rw (unset, read_chains) (read_chains-cache env user urls s)
      | inr (bank, set) ↦ elim (Bool-cases (env.is_chain_decommissioned s.tick chain)) [
        | inl gone ↦ rw (set, gone, read_chains) (read_chains-cache env user urls (later s))
        | inr live ↦
            let (c, s') = read_chain_balance env chain url bank user (later s) in
            let (cs, s'') = read_chains env user urls s' in
            rw (set, live, read_chains)
              (add_contribution-cache c cs s''
                ∙ (read_chains-cache env user urls s'
                    ∙ read_chain_balance-cache env chain url bank user (later s)))
      ]
    ]

module _ (env : Env) (user : Bytes) where
  refreshed-AllRead : (s : State) → AllRead env s.cache → AllRead env (refreshed env user s).1.cache
  unfolding refreshed fetch_aggregated_balance
  refreshed-AllRead s h =
      let ((balance, degraded), s') = fetch_aggregated_balance env user s in
      let entry : CachedBalance = record {
        balance_wei = balance;
        degraded = degraded;
        fetched_at = env.clock s'.tick;
      } in
      cache_insert-AllRead env (to_lowercase user) entry s'.cache
        (record { user = user; before = s; key = refl; read = refl; time = refl })
        (rw (read_chains-cache env user env.rpc_urls s) h)

  from-AllRead :
      (o : Option CachedBalance) (s : State)
      → AllRead env s.cache
      → AllRead env (balance_from env user o s).1.cache
  unfolding balance_from
  from-AllRead none s h = refreshed-AllRead s h
  from-AllRead (some entry) s h =
      elim (Bool-cases (ltb (env.clock s.tick - entry.fetched_at) balance_cache_ttl)) [
        | inl fresh ↦ rw fresh h
        | inr stale ↦ rw stale (refreshed-AllRead (later s) h)
      ]

-- Where an answer comes from: it is read now, or it was read less than four seconds ago for the same
-- address in lower case.
pub data Answered (env : Env) (user : Bytes) (s : State) (reply : ℕ × Bool) : Type 0 where
  anew :
      (s' : State)
      → s.tick ≤ s'.tick
      → reply ≡ (fetch_aggregated_balance env user s').0
      → Answered env user s reply
  kept :
      (earlier : Bytes) (s' : State)
      → to_lowercase earlier ≡ to_lowercase user
      → reply ≡ (fetch_aggregated_balance env earlier s').0
      → env.clock s.tick - env.clock (fetch_aggregated_balance env earlier s').1.tick
        < balance_cache_ttl
      → Answered env user s reply

refreshed-reply :
    (env : Env) (user : Bytes) (s : State)
    → (refreshed env user s).0 ≡ (fetch_aggregated_balance env user s).0
unfolding refreshed
refreshed-reply env user s = refl

from-Answered :
    (env : Env) (user : Bytes) (o : Option CachedBalance) (s : State)
    → o ≡ cache_get (to_lowercase user) s.cache
    → AllRead env s.cache
    → Answered env user s (balance_from env user o s).0
unfolding balance_from
from-Answered env user none s e h = anew s (omega arith) (refreshed-reply env user s)
from-Answered env user (some entry) s e h =
    elim (Bool-cases (ltb (env.clock s.tick - entry.fetched_at) balance_cache_ttl)) [
      | inl fresh ↦
          let was = cache_get-IsRead env (to_lowercase user) s.cache entry (sym e) h in
          let young = ltb→lt (env.clock s.tick - entry.fetched_at) balance_cache_ttl fresh in
          rw fresh (kept was.user was.before was.key (sym was.read) (rw was.time young))
      | inr stale ↦ rw stale (anew (later s) (omega arith) (refreshed-reply env user (later s)))
    ]

-- Requests for balances, one after the other.
unfoldable pub balances : Env → List Bytes → State → State
unfolding get_balance
balances env [] s = s
balances env (user ∷ users) s = balances env users (get_balance env user s).1

balances-AllRead :
    (env : Env) (users : List Bytes) (s : State)
    → AllRead env s.cache
    → AllRead env (balances env users s).cache
unfolding balances get_balance
balances-AllRead env [] s h = h
balances-AllRead env (user ∷ users) s h =
    balances-AllRead env users (get_balance env user s).1
      (from-AllRead env user (cache_get (to_lowercase user) s.cache) s h)

-- After any requests from an empty cache on, what the service answers to the next one is read from the
-- chains then, or was read for the same address, in lower case, less than four seconds before.
pub get_balance-Answered :
    (env : Env) (users : List Bytes) (user : Bytes) (s : State)
    → s.cache ≡ []
    → let s' = balances env users s in Answered env user s' (get_balance env user s').0
unfolding get_balance
get_balance-Answered env users user s empty =
    let s' = balances env users s in
    from-Answered env user (cache_get (to_lowercase user) s'.cache) s' refl
      (balances-AllRead env users s (rw empty tt))
