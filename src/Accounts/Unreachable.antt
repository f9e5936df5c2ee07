-- ===== src/Accounts/Unreachable.antt =====
-- What services/treasury/src/account_balance.rs answers when no node does.
use web_3_bank.Prelude.{
  ℕ, ◌≡◌, refl, ap, ◌∙◌, false, Bool-cases, Option-cases, none, inl, inr, [], ◌∷◌, Bytes,
}
use web_3_bank.Prelude.Dict.{Dict, get}
use web_3_bank.Eth.Rpc.{Wire, hex_call, fetch_address_view, word_address}
use web_3_bank.Watcher.Events.{decode_at_least}
use web_3_bank.Domain.Balance.{aggregate_balances}
use web_3_bank.Decommission.Ops.{to_lowercase}
use web_3_bank.Accounts.Balance.{
  Env, State, later, token_of, read_from_token, read_chain_balance, read_chains,
  fetch_aggregated_balance, cache_get, refreshed, balance_from, get_balance,
}

-- No call is answered.
abbrev pub NoAnswers : Wire → Type 0
NoAnswers wire =
    (t : ℕ) (url contract call_data : Bytes) → wire.eth_call t url contract call_data ≡ none

view-none :
    (wire : Wire) (quiet : NoAnswers wire) (t : ℕ) (url contract selector : Bytes)
    → fetch_address_view wire t url contract selector ≡ none
unfolding fetch_address_view word_address decode_at_least
view-none wire quiet t url contract selector = rw (quiet t url contract (hex_call selector)) refl

module _ (env : Env) (quiet : NoAnswers env.wire) (user : Bytes) where
  read_chain_balance-none :
      (chain : ℕ) (url bank : Bytes) (s : State)
      → s.sync_usd_cache ≡ []
      → read_chain_balance env chain url bank user s ≡ (none, later s)
  unfolding read_chain_balance token_of read_from_token
  read_chain_balance-none chain url bank s unknown =
      rw (unknown, view-none env.wire quiet s.tick url bank env.sync_usd_selector) refl

  read_chains-none :
      (urls : Dict Bytes) (s : State) → s.sync_usd_cache ≡ [] → (read_chains env user urls s).0 ≡ []
  unfolding read_chains
  read_chains-none [] s unknown = refl
  read_chains-none ((chain, url) ∷ urls) s unknown =
      elim (Option-cases (get chain env.contract_addresses)) [
        | inl unset ↦ rw (unset, read_chains) (read_chains-none urls s unknown)
        | inr (bank, set) ↦ elim (Bool-cases (env.is_chain_decommissioned s.tick chain)) [
          | inl gone ↦ rw (set, gone, read_chains) (read_chains-none urls (later s) unknown)
          | inr live ↦
              rw (set, live, read_chain_balance-none chain url bank (later s) unknown, read_chains)
                (read_chains-none urls (later (later s)) unknown)
        ]
      ]

  fetch_aggregated_balance-none :
      (s : State) → s.sync_usd_cache ≡ [] → (fetch_aggregated_balance env user s).0 ≡ (0, false)
  unfolding fetch_aggregated_balance aggregate_balances
  fetch_aggregated_balance-none s unknown = rw (read_chains-none env.rpc_urls s unknown) refl

  -- If no node answers, and neither the balance nor the address of a token is kept, then the service
  -- answers a balance of 0, and not that it is degraded, whatever balance is indexed.
  pub unreachable_not_degraded :
      (s : State) → s.cache ≡ [] → s.sync_usd_cache ≡ [] → (get_balance env user s).0 ≡ (0, false)
  unfolding get_balance balance_from refreshed
  unreachable_not_degraded s empty unknown =
      ap (λ o. (balance_from env user o s).0) (ap (cache_get (to_lowercase user)) empty)
      ∙ fetch_aggregated_balance-none s unknown
