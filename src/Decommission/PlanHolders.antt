-- ===== src/Decommission/PlanHolders.antt =====
-- The holders of a plan that services/treasury/src/decommission_runtime.rs builds, and the bridges of
-- its drain.
use web_3_bank.Prelude.{
  ℕ, suc, ◌+◌, ◌≤◌, ◌≡◌, refl, ap, true, Bool-cases, Option, none, some, inl, inr, List, [], ◌∷◌,
  ◌==◌, Bytes, ◌===◌, ===→eq, if◌then◌else◌, arith,
}
use web_3_bank.Prelude.Dict.{get}
use web_3_bank.Eth.Rpc.{fetch_address_view, fetch_balance_of}
use web_3_bank.Decommission.Ops.{to_lowercase, contains_holder}
use web_3_bank.Decommission.Drain.{
  HolderBalance, DrainPlan, Ports, BankCall, bridge_call, pool_call, reserve_call, State,
  drain_holder, drain_holders, drain_pool, drain_reserve, drain_liquidity, completed_now, drain_all,
  run_drain_plan,
}
use web_3_bank.Decommission.Bridges.{drain_holder-calls}
use web_3_bank.Decommission.Plan.{
  Runtime, has_text, or_zero, resolve_unique, plan_from, plan_at, build_drain_plan,
}

-- How many of the holders have this address in lower case.
unfoldable pub count_of : Bytes → List HolderBalance → ℕ
count_of a [] = 0
count_of a (h ∷ holders) =
    let rest = count_of a holders in
    if to_lowercase h.address === to_lowercase a then suc rest else rest

has_text-cons :
    (a b : Bytes) (seen : List Bytes) → has_text a seen ≡ true → has_text a (b ∷ seen) ≡ true
unfolding has_text
has_text-cons a b seen h = rw h (ground arith)

pub has_text-own : (a b : Bytes) (seen : List Bytes) → b === a ≡ true → has_text a (b ∷ seen) ≡ true
unfolding has_text
has_text-own a b seen h = rw h refl

module _ (r : Runtime) (url token a : Bytes) where
  pub seen-count :
      (seen holders : List Bytes) (t : ℕ)
      → has_text (to_lowercase a) seen ≡ true
      → count_of a (resolve_unique r url token seen holders t).0 ≡ 0
  unfolding resolve_unique count_of
  seen-count seen [] t h = refl
  seen-count seen (holder ∷ holders) t h =
      let low = to_lowercase holder in
      let amount = or_zero (fetch_balance_of r.wire t url token holder r.balance_of_selector) in
      elim (Bool-cases (has_text low seen)) [
        | inl old ↦ rw (old, resolve_unique) (seen-count seen holders t h)
        | inr new ↦
            let rest =
              seen-count (low ∷ seen) holders (t + 1) (has_text-cons (to_lowercase a) low seen h) in
            elim (Bool-cases (amount == 0)) [
              | inl nothing ↦ rw (new, nothing, resolve_unique) rest
              | inr some_left ↦ elim (Bool-cases (low === to_lowercase a)) [
                | inl own ↦
                    let same : low ≡ to_lowercase a = ===→eq low (to_lowercase a) own in
                    let seen_low : has_text low seen ≡ true = rw same h in cc
                | inr other ↦ rw (new, some_left, other, resolve_unique, count_of) rest
              ]
            ]
      ]

  resolve_unique-count :
      (seen holders : List Bytes) (t : ℕ)
      → count_of a (resolve_unique r url token seen holders t).0 ≤ 1
  unfolding resolve_unique count_of
  resolve_unique-count seen [] t = omega arith
  resolve_unique-count seen (holder ∷ holders) t =
      let low = to_lowercase holder in
      let amount = or_zero (fetch_balance_of r.wire t url token holder r.balance_of_selector) in
      elim (Bool-cases (has_text low seen)) [
        | inl old ↦ rw (old, resolve_unique) (resolve_unique-count seen holders t)
        | inr new ↦
            let rest = resolve_unique-count (low ∷ seen) holders (t + 1) in
            elim (Bool-cases (amount == 0)) [
              | inl nothing ↦ rw (new, nothing, resolve_unique) rest
              | inr some_left ↦ elim (Bool-cases (low === to_lowercase a)) [
                | inl own ↦
                    let zero_left : count_of a
                          (resolve_unique r url token (low ∷ seen) holders (t + 1)).0
                        ≡ 0 =
                      seen-count (low ∷ seen) holders (t + 1)
                        (has_text-own (to_lowercase a) low seen own) in
                    rw (new, some_left, own, zero_left, resolve_unique, count_of) (omega arith)
                | inr other ↦ rw (new, some_left, other, resolve_unique, count_of) rest
              ]
            ]
      ]

plan_from-count :
    (r : Runtime) (source target : ℕ) (holders : List Bytes) (t : ℕ) (url bank : Bytes)
    (token : Option Bytes) (a : Bytes)
    → count_of a (plan_from r source target holders t url bank token).holders ≤ 1
unfolding plan_from count_of
plan_from-count r source target holders t url bank none a = omega arith
plan_from-count r source target holders t url bank (some token) a =
    resolve_unique-count r url token a [] holders t

plan_at-count :
    (r : Runtime) (source target : ℕ) (holders : List Bytes) (t : ℕ) (url bank : Option Bytes)
    (a : Bytes)
    → count_of a (plan_at r source target holders t url bank).holders ≤ 1
unfolding plan_at count_of
plan_at-count r source target holders t none bank a = omega arith
plan_at-count r source target holders t (some url) none a = omega arith
plan_at-count r source target holders t (some url) (some bank) a =
    plan_from-count r source target holders (t + 1) url bank
      (fetch_address_view r.wire t url bank r.sync_usd_selector) a

-- Two holders of a plan have different addresses in lower case.
pub build_drain_plan-count :
    (r : Runtime) (source target : ℕ) (holders : List Bytes) (t : ℕ) (a : Bytes)
    → count_of a (build_drain_plan r source target holders t).holders ≤ 1
unfolding build_drain_plan
build_drain_plan-count r source target holders t a =
    plan_at-count r source target holders t (get source r.rpc_urls)
      (get source r.contract_addresses) a

-- How many calls are bridges of a holder with this address.
unfoldable pub bridge_count : Bytes → List BankCall → ℕ
unfolding count_of
bridge_count a [] = 0
bridge_count a (bridge_call source target h ∷ calls) = count_of a (h ∷ []) + bridge_count a calls
bridge_count a (pool_call source target amount ∷ calls) = bridge_count a calls
bridge_count a (reserve_call source target amount ∷ calls) = bridge_count a calls

count_of-cons :
    (a : Bytes) (h : HolderBalance) (holders : List HolderBalance)
    → count_of a (h ∷ holders) ≡ count_of a (h ∷ []) + count_of a holders
unfolding count_of
count_of-cons a h holders = elim (Bool-cases (to_lowercase h.address === to_lowercase a)) [
  | inl own ↦ rw own (omega arith)
  | inr other ↦ rw other (omega arith)
]

module _ (ports : Ports) (plan : DrainPlan) (a : Bytes) where
  drain_holders-bridges :
      (completed : List Bytes) (holders : List HolderBalance) (s : State)
      → bridge_count a (drain_holders ports plan completed holders s).1.bank_calls
        ≤ bridge_count a s.bank_calls + count_of a holders
  unfolding drain_holders bridge_count count_of
  drain_holders-bridges completed [] s = omega arith
  drain_holders-bridges completed (holder ∷ holders) s =
      let split = count_of-cons a holder holders in
      elim (Bool-cases (contains_holder holder.address completed)) [
        | inl old ↦
            let rest = drain_holders-bridges completed holders s in
            rw (old, split) (omega (arith, rest))
        | inr new ↦
            let s' = (drain_holder ports plan holder s).1 in
            let rest = drain_holders-bridges completed holders s' in
            let called : bridge_count a s'.bank_calls
                ≡ count_of a (holder ∷ []) + bridge_count a s.bank_calls =
              ap (bridge_count a) (drain_holder-calls ports plan holder s) in
            rw (new, split) (omega (arith, rest, called))
      ]

  drain_pool-bridges :
      (s : State) → bridge_count a (drain_pool plan s).bank_calls ≡ bridge_count a s.bank_calls
  unfolding drain_pool bridge_count
  drain_pool-bridges s = elim (Bool-cases (plan.pool_amount == 0)) [
    | inl z ↦ rw z refl
    | inr p ↦ rw p refl
  ]

  drain_reserve-bridges :
      (s : State) → bridge_count a (drain_reserve plan s).bank_calls ≡ bridge_count a s.bank_calls
  unfolding drain_reserve bridge_count
  drain_reserve-bridges s = elim (Bool-cases (plan.reserve_amount == 0)) [
    | inl z ↦ rw z refl
    | inr p ↦ rw p refl
  ]

  run_drain_plan-bridges :
      (s : State)
      → bridge_count a (run_drain_plan ports plan s).1.bank_calls
        ≤ bridge_count a s.bank_calls + count_of a plan.holders
  unfolding run_drain_plan drain_all drain_liquidity
  run_drain_plan-bridges s =
      let later = record s { tick = s.tick + 1 } in
      let completed = completed_now ports plan later in
      let started = record later { tick = later.tick + 1 } in
      let s' = (drain_holders ports plan completed plan.holders started).1 in
      let bridged = drain_holders-bridges completed plan.holders started in
      let pooled = drain_pool-bridges s' in
      let reserved = drain_reserve-bridges (drain_pool plan s') in
      elim (Bool-cases (ports.is_chain_active s.tick plan.target_chain)) [
        | inl live ↦ rw live (omega (arith, bridged, pooled, reserved))
        | inr off ↦ rw off (omega arith)
      ]

-- A drain of a plan that is built from any list of holders bridges the balance of an address at most
-- once, however often and in whatever case the list holds the address.
pub run_drain_plan-bridges_once :
    (ports : Ports) (r : Runtime) (source target : ℕ) (holders : List Bytes) (t : ℕ) (a : Bytes)
    (s : State)
    → bridge_count a
        (run_drain_plan ports (build_drain_plan r source target holders t) s).1.bank_calls
      ≤ bridge_count a s.bank_calls + 1
run_drain_plan-bridges_once ports r source target holders t a s =
    let once = build_drain_plan-count r source target holders t a in
    let bridged = run_drain_plan-bridges ports (build_drain_plan r source target holders t) a s in
    omega (arith, once, bridged)
