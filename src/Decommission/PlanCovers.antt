-- ===== src/Decommission/PlanCovers.antt =====
-- The holders that a plan of services/treasury/src/decommission_runtime.rs does not leave out.
use web_3_bank.Prelude.{
  ℕ, ◌+◌, ◌≡◌, ◌≢◌, refl, All, sym, ap, ◌∙◌, true, false, ◌&&◌, Bool-cases, Option, none, some, inl,
  inr, List, [], ◌∷◌, ◌++◌, ◌==◌, Bytes, ◌===◌, ===→eq, ===_refl, arith,
}
use web_3_bank.Prelude.Dict.{get}
use web_3_bank.Eth.Rpc.{fetch_address_view, fetch_balance_of}
use web_3_bank.AccountIndex.Events.{AccountEventRow, credited}
use web_3_bank.Decommission.Ops.{lower, to_lowercase, contains_holder}
use web_3_bank.Decommission.Plan.{
  Runtime, has_text, add_holder, indexed_holders, holders_for_chain_index, or_zero, resolve_unique,
  plan_from, plan_at, build_drain_plan,
}
use web_3_bank.Decommission.PlanHolders.{count_of, has_text-own, seen-count}

lower_idem : (c : ℕ) → lower (lower c) ≡ lower c
unfolding lower
lower_idem c = ground arith

pub to_lowercase_idem : (a : Bytes) → to_lowercase (to_lowercase a) ≡ to_lowercase a
unfolding to_lowercase
to_lowercase_idem [] = refl
to_lowercase_idem (c ∷ a) = rw (lower_idem c, to_lowercase_idem a, to_lowercase) refl

has_text-contains :
    (a : Bytes) (holders : List Bytes)
    → has_text (to_lowercase a) holders ≡ true
    → contains_holder a holders ≡ true
unfolding has_text contains_holder
has_text-contains a [] h = h
has_text-contains a (holder ∷ holders) h = elim (Bool-cases (holder === to_lowercase a)) [
  | inl own ↦
      let same : holder ≡ to_lowercase a = ===→eq holder (to_lowercase a) own in
      let low : to_lowercase holder ≡ to_lowercase a = ap to_lowercase same ∙ to_lowercase_idem a in
      rw (low, ===_refl (to_lowercase a)) refl
  | inr other ↦ let rest = has_text-contains a holders (rw other at h) in rw rest (ground arith)
]

-- A holder that is added is found, and the others stay.
add_holder-own :
    (a : Bytes) (rest : List Bytes) → has_text (to_lowercase a) (add_holder (some a) rest) ≡ true
unfolding add_holder
add_holder-own a rest = elim (Bool-cases (has_text (to_lowercase a) rest)) [
  | inl old ↦ rw old old
  | inr new ↦
      rw new (has_text-own (to_lowercase a) (to_lowercase a) rest (===_refl (to_lowercase a)))
]

add_holder-kept :
    (b : Bytes) (o : Option Bytes) (rest : List Bytes)
    → has_text b rest ≡ true
    → has_text b (add_holder o rest) ≡ true
unfolding add_holder has_text
add_holder-kept b none rest h = h
add_holder-kept b (some a) rest h = elim (Bool-cases (has_text (to_lowercase a) rest)) [
  | inl old ↦ rw old h
  | inr new ↦ rw (new, h) (ground arith)
]

has_text-other :
    (a b : Bytes) (seen : List Bytes)
    → b === a ≡ false
    → has_text a seen ≡ false
    → has_text a (b ∷ seen) ≡ false
unfolding has_text
has_text-other a b seen other new = rw other new

not_zero : (n : ℕ) → n ≢ 0 → n == 0 ≡ false
not_zero n h = ground arith

module _ (chain : ℕ) (row : AccountEventRow) (a : Bytes) where
  indexed_holders-own :
      (before after : List AccountEventRow)
      → row.chain_id ≡ chain
      → credited row.event_kind ≡ true
      → row.address_to ≡ some a
      → has_text (to_lowercase a) (indexed_holders chain (before ++ (row ∷ after))) ≡ true
  unfolding indexed_holders
  indexed_holders-own [] after on credits to =
      let here : row.chain_id == chain ≡ true = ground arith in
      rw (here, credits, to) (add_holder-own a (indexed_holders chain after))
  indexed_holders-own (e ∷ before) after on credits to =
      let rest = indexed_holders-own before after on credits to in
      let others = indexed_holders chain (before ++ (row ∷ after)) in
      elim (Bool-cases ((e.chain_id == chain) && credited e.event_kind)) [
        | inl taken ↦ rw taken (add_holder-kept (to_lowercase a) e.address_to others rest)
        | inr left ↦ rw left rest
      ]

-- The holders of the index are in lower case.
abbrev IsLower : Bytes → Type 0
IsLower a = to_lowercase a ≡ a

add_holder-AllLower :
    (o : Option Bytes) (rest : List Bytes) → All IsLower rest → All IsLower (add_holder o rest)
unfolding add_holder
add_holder-AllLower none rest h = h
add_holder-AllLower (some a) rest h = elim (Bool-cases (has_text (to_lowercase a) rest)) [
  | inl old ↦ rw old h
  | inr new ↦ rw new (to_lowercase_idem a, h)
]

indexed_holders-AllLower :
    (chain : ℕ) (rows : List AccountEventRow) → All IsLower (indexed_holders chain rows)
unfolding indexed_holders
indexed_holders-AllLower chain [] = tt
indexed_holders-AllLower chain (e ∷ rows) =
    let rest = indexed_holders-AllLower chain rows in
    elim (Bool-cases ((e.chain_id == chain) && credited e.event_kind)) [
      | inl taken ↦ rw taken (add_holder-AllLower e.address_to (indexed_holders chain rows) rest)
      | inr left ↦ rw left rest
    ]

-- Every answer about the balance of an address is a balance.
abbrev pub HasBalance : Runtime → Bytes → Bytes → Bytes → Type 0
HasBalance r url token a =
    (t : ℕ)
    → or_zero (fetch_balance_of r.wire t url token (to_lowercase a) r.balance_of_selector) ≢ 0

module _ (r : Runtime) (url token a : Bytes) (funded : HasBalance r url token a) where
  resolve_unique-covers :
      (seen holders : List Bytes) (t : ℕ)
      → has_text (to_lowercase a) seen ≡ false
      → contains_holder a holders ≡ true
      → All IsLower holders
      → count_of a (resolve_unique r url token seen holders t).0 ≡ 1
  unfolding resolve_unique count_of contains_holder
  resolve_unique-covers seen [] t new h all = cc
  resolve_unique-covers seen (holder ∷ holders) t new h all =
      let low = to_lowercase holder in
      let amount = or_zero (fetch_balance_of r.wire t url token holder r.balance_of_selector) in
      elim (Bool-cases (low === to_lowercase a)) [
        | inl own ↦
            let same : low ≡ to_lowercase a = ===→eq low (to_lowercase a) own in
            let fresh : has_text low seen ≡ false = rw same new in
            let some_left : amount == 0 ≡ false =
              not_zero amount (rw (sym all.0 ∙ same) (funded t)) in
            let rest =
              seen-count r url token a (low ∷ seen) holders (t + 1)
                (has_text-own (to_lowercase a) low seen own) in
            rw (fresh, some_left, own, rest, resolve_unique, count_of) refl
        | inr other ↦
            let more : contains_holder a holders ≡ true = rw other at h in
            elim (Bool-cases (has_text low seen)) [
              | inl old ↦
                  rw (old, resolve_unique) (resolve_unique-covers seen holders t new more all.1)
              | inr fresh ↦
                  let rest =
                    resolve_unique-covers (low ∷ seen) holders (t + 1)
                      (has_text-other (to_lowercase a) low seen other new) more all.1 in
                  elim (Bool-cases (amount == 0)) [
                    | inl nothing ↦ rw (fresh, nothing, resolve_unique) rest
                    | inr some_left ↦ rw (fresh, some_left, other, resolve_unique, count_of) rest
                  ]
            ]
      ]

-- If the index has a row that adds to the balance of an address on the source chain, and every
-- answer about the balance of the address is more than 0, then the plan has this holder, exactly
-- once: if the database answers, and the source chain's node, bank and token are known.
pub build_drain_plan-covers :
    (r : Runtime) (source target t : ℕ) (row : AccountEventRow)
    (before after : List AccountEventRow) (a url bank token : Bytes)
    → r.database_up t ≡ true
    → r.events t ≡ before ++ (row ∷ after)
    → row.chain_id ≡ source
    → credited row.event_kind ≡ true
    → row.address_to ≡ some a
    → get source r.rpc_urls ≡ some url
    → get source r.contract_addresses ≡ some bank
    → fetch_address_view r.wire (t + 1) url bank r.sync_usd_selector ≡ some token
    → HasBalance r url token a
    → count_of a
        (build_drain_plan r source target (holders_for_chain_index r t source) (t + 1)).holders
      ≡ 1
unfolding build_drain_plan plan_at plan_from holders_for_chain_index has_text
build_drain_plan-covers r source target t row before after a url bank token up stored on credits to
      node address known funded =
    let holders = holders_for_chain_index r t source in
    let listed : contains_holder a holders ≡ true =
      has_text-contains a holders
        (rw (up, stored) (indexed_holders-own source row a before after on credits to)) in
    let lowered : All IsLower holders = rw up (indexed_holders-AllLower source (r.events t)) in
    rw (node, address, known)
      (resolve_unique-covers r url token a funded [] holders (t + 1 + 1) refl listed lowered)
