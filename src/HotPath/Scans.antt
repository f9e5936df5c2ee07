-- ===== src/HotPath/Scans.antt =====
-- The block ranges that `poll_events_loop` of services/treasury/src/hot_path.rs scans on a chain.
use web_3_bank.Prelude.{
  ℕ, suc, ◌+◌, ◌≤◌, ◌≡◌, ==_iff, refl, ap, ◌∙◌, false, Bool-cases, inl, inr, ◌&&◌, ◌==◌, Option,
  none, some, List, [], ◌∷◌, ltb, leb, if◌then◌else◌, Bytes, arith,
}
use web_3_bank.Prelude.Dict.{get, get-insert}
use web_3_bank.HotPath.Relay.{Env}
use web_3_bank.HotPath.Rounds.{Turn, turns}
use web_3_bank.HotPath.Polls.{max_block_range, scan_from, Polled, poll_to, poll_chain}

-- The latest block that the node answers.
abbrev pub answer : Env → Turn → Option ℕ
answer env t = elim t.bank_addr [
  | none ↦ none
  | some bank_addr ↦ env.fetch_block_number t.time t.rpc_url
]

-- The answers in a chain's turns.
abbrev pub answers : Env → ℕ → List Turn → List (Option ℕ)
answers env chain [] = []
answers env chain (t ∷ ts) =
    let rest = answers env chain ts in if t.chain == chain then answer env t ∷ rest else rest

-- How many of the ranges that a chain's node was asked for hold a block.
unfoldable pub times_scanned : ℕ → ℕ → List (ℕ × (ℕ × ℕ)) → ℕ
times_scanned chain b [] = 0
times_scanned chain b ((c, (from, to)) ∷ ranges) =
    let rest = times_scanned chain b ranges in
    if (c == chain) && (leb from b && leb b to) then suc rest else rest

-- The chain does not go back between two answers, and is not further on than one range holds.
abbrev pub IsSteady : ℕ → List (Option ℕ) → Type 0
IsSteady prev [] = Unit
IsSteady prev (none ∷ tos) = IsSteady prev tos
IsSteady prev (some to ∷ tos) = (prev ≤ to) × ((to ≤ prev + 2001) × IsSteady to tos)

abbrev pub last_of : ℕ → List (Option ℕ) → ℕ
last_of prev [] = prev
last_of prev (none ∷ tos) = last_of prev tos
last_of prev (some to ∷ tos) = last_of to tos

last_of-ge : (prev : ℕ) (tos : List (Option ℕ)) → IsSteady prev tos → prev ≤ last_of prev tos
last_of-ge prev [] h = omega arith
last_of-ge prev (none ∷ tos) h = last_of-ge prev tos h
last_of-ge prev (some to ∷ tos) h = omega (arith, last_of-ge to tos h.1.1, h.0)

from_cursor :
    (prev to : ℕ) → prev ≤ to → to ≤ prev + 2001 → scan_from (some (prev + 1)) to ≡ prev + 1
unfolding scan_from max_block_range
from_cursor prev to p q = omega arith

from_start : (to : ℕ) → scan_from none to ≡ to
unfolding scan_from max_block_range
from_start to = omega arith

module _ (env : Env) (chain b : ℕ) where
  -- The cursor after a scan, and the range that it asks for.
  poll_to-cursor :
      (rpc_url bank : Bytes) (to : ℕ) (p : Polled)
      → get chain (poll_to env chain rpc_url bank (some to) p).last_block ≡ some (to + 1)
  unfolding poll_to
  poll_to-cursor rpc_url bank to p = rw get-insert (ground arith)

  poll_to-times :
      (rpc_url bank : Bytes) (to from : ℕ) (p : Polled)
      → scan_from (get chain p.last_block) to ≡ from
      → times_scanned chain b (poll_to env chain rpc_url bank (some to) p).asked
        ≡ (if leb from b && leb b to then 1 else 0) + times_scanned chain b p.asked
  unfolding poll_to times_scanned
  poll_to-times rpc_url bank to from p e = rw e (ground arith)

  -- The turn of another chain.
  abbrev IsSame : Polled → Polled → Type 0
  IsSame p q =
      (get chain q.last_block ≡ get chain p.last_block)
      × (times_scanned chain b q.asked ≡ times_scanned chain b p.asked)

  poll_to-other :
      (c : ℕ) (rpc_url bank : Bytes) (o : Option ℕ) (p : Polled)
      → (c == chain) ≡ false
      → IsSame p (poll_to env c rpc_url bank o p)
  unfolding poll_to times_scanned
  poll_to-other c rpc_url bank none p other = (refl, refl)
  poll_to-other c rpc_url bank (some to) p other =
      let apart : (chain == c) ≡ false = ground arith in
      (rw get-insert (rw apart refl), rw other refl)

  poll_chain-other :
      (c : ℕ) (rpc_url : Bytes) (bank : Option Bytes) (p : Polled)
      → (c == chain) ≡ false
      → IsSame p (poll_chain env c rpc_url bank p)
  unfolding poll_chain
  poll_chain-other c rpc_url none p other = (refl, refl)
  poll_chain-other c rpc_url (some bank) p other =
      poll_to-other c rpc_url bank (env.fetch_block_number p.tick rpc_url)
        (record p { tick = p.tick + 1 }) other

  -- The blocks above the cursor's, up to the last answer.
  abbrev Scanned : ℕ → Polled → Polled → List (Option ℕ) → Type 0
  Scanned prev p q tos =
      times_scanned chain b q.asked
      ≡ (if ltb prev b && leb b (last_of prev tos) then 1 else 0) + times_scanned chain b p.asked

  abbrev Continues : List Turn → Type 0
  Continues ts =
      (prev : ℕ) (p : Polled)
      → get chain p.last_block ≡ some (prev + 1)
      → IsSteady prev (answers env chain ts)
      → Scanned prev p (turns env ts p) (answers env chain ts)

  poll_to-Continues :
      (rpc_url bank : Bytes) (o : Option ℕ) (ts : List Turn)
      → Continues ts
      → (prev : ℕ) (p : Polled) → get chain p.last_block ≡ some (prev + 1)
      → IsSteady prev (o ∷ answers env chain ts)
      → Scanned prev p
          (turns env ts (poll_to env chain rpc_url bank o p))
          (o ∷ answers env chain ts)
  unfolding poll_to
  poll_to-Continues rpc_url bank none ts rest prev p at h = rest prev p at h
  poll_to-Continues rpc_url bank (some to) ts rest prev p at h =
      let next = poll_to env chain rpc_url bank (some to) p in
      let from : scan_from (get chain p.last_block) to ≡ prev + 1 =
        rw at (from_cursor prev to h.0 h.1.0) in
      rest to next (poll_to-cursor rpc_url bank to p) h.1.1
      ∙ rw (poll_to-times rpc_url bank to (prev + 1) p from)
          (ground (arith, last_of-ge to (answers env chain ts) h.1.1))

  poll_chain-Continues :
      (rpc_url : Bytes) (bank : Option Bytes) (time : ℕ) (ts : List Turn)
      → Continues ts
      → (prev : ℕ) (p : Polled) → get chain p.last_block ≡ some (prev + 1)
      → let t : Turn = record { chain = chain; rpc_url = rpc_url; bank_addr = bank; time = time } in
        IsSteady prev (answer env t ∷ answers env chain ts)
        → Scanned prev p
            (turns env ts (poll_chain env chain rpc_url bank (record p { tick = time })))
            (answer env t ∷ answers env chain ts)
  unfolding poll_chain
  poll_chain-Continues rpc_url none time ts rest prev p at h = rest prev _ at h
  poll_chain-Continues rpc_url (some bank) time ts rest prev p at h =
      poll_to-Continues rpc_url bank (env.fetch_block_number time rpc_url) ts rest prev
        (record p { tick = time + 1 }) at h

  turns-Continues : (ts : List Turn) → Continues ts
  unfolding turns
  turns-Continues [] prev p at h = ground arith
  turns-Continues (t ∷ ts) prev p at h = elim (Bool-cases (t.chain == chain)) [
    | inl own ↦
        let is : t.chain ≡ chain = (==_iff t.chain chain).0 own in
        let steady : IsSteady prev (answer env t ∷ answers env chain ts) = rw own at h in
        rw own (
          rw is (
            poll_chain-Continues t.rpc_url t.bank_addr t.time ts (turns-Continues ts) prev p at
              steady))
    | inr other ↦
        let steady : IsSteady prev (answers env chain ts) = rw other at h in
        let p' = record p { tick = t.time } in
        let same = poll_chain-other t.chain t.rpc_url t.bank_addr p' other in
        rw other (
          turns-Continues ts prev (poll_chain env t.chain t.rpc_url t.bank_addr p') (same.0 ∙ at)
            steady
          ∙ rw (same.1) refl)
  ]

-- Over any turns of the chains in the rounds of the event loop, at any times, from a turn of a chain
-- without a cursor on: every block from the latest of this turn on, up to the latest that is answered
-- last on the chain, is in exactly one of the ranges that the chain's node is asked for from then on,
-- and no other block is in one, if this turn is answered and the answers on the chain do not go back
-- and are each at most 2001 blocks further on than the one before; turns without an answer or a bank
-- address may be among them.
pub turns-times_scanned :
    (env : Env) (chain b : ℕ) (rpc_url bank : Bytes) (time first : ℕ) (ts : List Turn) (p : Polled)
    → get chain p.last_block ≡ none
    → env.fetch_block_number time rpc_url ≡ some first
    → IsSteady first (answers env chain ts)
    → let t : Turn = record {
      chain = chain;
      rpc_url = rpc_url;
      bank_addr = some bank;
      time = time;
    } in
      times_scanned chain b (turns env (t ∷ ts) p).asked
      ≡ (if leb first b && leb b (last_of first (answers env chain ts)) then 1 else 0)
        + times_scanned chain b p.asked
unfolding turns poll_chain
turns-times_scanned env chain b rpc_url bank time first ts p fresh answered h =
    let p' = record p { tick = time + 1 } in
    let from : scan_from (get chain p.last_block) first ≡ first = rw fresh (from_start first) in
    ap (λ o. times_scanned chain b (turns env ts (poll_to env chain rpc_url bank o p')).asked)
      answered
    ∙ (turns-Continues env chain b ts first (poll_to env chain rpc_url bank (some first) p')
          (poll_to-cursor env chain b rpc_url bank first p') h
        ∙ rw (poll_to-times env chain b rpc_url bank first first p' from)
            (ground (arith, last_of-ge first (answers env chain ts) h)))
