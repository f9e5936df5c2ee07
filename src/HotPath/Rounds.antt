-- ===== src/HotPath/Rounds.antt =====
-- The rounds of `poll_events_loop` of services/treasury/src/hot_path.rs, chain by chain.
use web_3_bank.Prelude.{ℕ, ◌≡◌, refl, Option, List, [], ◌∷◌, Bytes}
use web_3_bank.Prelude.Dict.{Dict, get}
use web_3_bank.HotPath.Relay.{Env}
use web_3_bank.HotPath.Polls.{Polled, poll_chain, poll_chains}

-- A chain's turn in a round, at a time; without a bank address it is skipped.
pub record Turn : Type 0 where
  pub chain : ℕ
  pub rpc_url : Bytes
  pub bank_addr : Option Bytes
  pub time : ℕ

-- The turns of the chains, round after round.
unfoldable pub turns : Env → List Turn → Polled → Polled
unfolding poll_chain
turns env [] p = p
turns env (t ∷ ts) p =
    turns env ts (poll_chain env t.chain t.rpc_url t.bank_addr (record p { tick = t.time }))

-- The turns of a round, in the order of the URLs.
round_turns : Env → Dict Bytes → Polled → List Turn
round_turns env [] p = []
round_turns env ((chain, rpc_url) ∷ urls) p =
    let bank_addr = get chain env.contract_addresses in
    record { chain = chain; rpc_url = rpc_url; bank_addr = bank_addr; time = p.tick }
    ∷ round_turns env urls (poll_chain env chain rpc_url bank_addr p)

poll_chains-turns :
    (env : Env) (urls : Dict Bytes) (p : Polled)
    → poll_chains env urls p ≡ turns env (round_turns env urls p) p
unfolding poll_chains turns round_turns
poll_chains-turns env [] p = refl
poll_chains-turns env ((chain, rpc_url) ∷ urls) p =
    poll_chains-turns env urls (poll_chain env chain rpc_url (get chain env.contract_addresses) p)
