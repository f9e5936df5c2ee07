-- ===== src/Domain/Withdrawal.antt =====
-- services/treasury/src/domain/withdrawal_routing.rs: how much a user can withdraw on each chain.
use web_3_bank.Prelude.{
  ℕ, ◌+◌, ◌≤◌, ◌<◌, ◌≡◌, inl, inr, refl, ◌↔◌, Bool, true, false, Bool-cases, Option, none, some,
  List, [], ◌∷◌, min, arith, ◌==◌, if◌then◌else◌, Bytes, codes, All,
}

pub record ChainWithdrawalInput : Type 0 where
  pub chain_id : ℕ
  pub balance_wei : ℕ
  pub reserve_depth_wei : ℕ
  pub active : Bool
  pub decommissioned : Bool

pub record ChainWithdrawalEntry : Type 0 where
  pub chain_id : ℕ
  pub balance_wei : ℕ
  pub withdrawable_wei : ℕ
  pub available : Bool
  pub reason : Option Bytes

-- An entry that nothing can be withdrawn from, with the reason.
abbrev pub unavailable : ChainWithdrawalInput → Bytes → ChainWithdrawalEntry
unavailable input why = record {
  chain_id = input.chain_id;
  balance_wei = input.balance_wei;
  withdrawable_wei = 0;
  available = false;
  reason = some why;
}

abbrev pub chain_inactive : Bytes
chain_inactive = codes "chain_inactive"

abbrev pub insufficient_reserve : Bytes
insufficient_reserve = codes "insufficient_reserve"

-- The entry of an active chain that is not decommissioned and holds a balance.
routed : ChainWithdrawalInput → ChainWithdrawalEntry
routed input =
    let withdrawable = min input.balance_wei input.reserve_depth_wei in
    if withdrawable == 0 then unavailable input insufficient_reserve else record {
      chain_id = input.chain_id;
      balance_wei = input.balance_wei;
      withdrawable_wei = withdrawable;
      available = true;
      reason = none;
    }

-- One round of the loop: what it pushes, before the entries of the later rounds.
route_one : ChainWithdrawalInput → List ChainWithdrawalEntry → List ChainWithdrawalEntry
unfolding routed
route_one input rest =
    if input.decommissioned
    then rest
    else (if input.active
        then (if input.balance_wei == 0 then rest else routed input ∷ rest)
        else unavailable input chain_inactive ∷ rest)

unfoldable pub compute_withdrawal_routing : List ChainWithdrawalInput → List ChainWithdrawalEntry
unfolding route_one
compute_withdrawal_routing [] = []
compute_withdrawal_routing (input ∷ inputs) = route_one input (compute_withdrawal_routing inputs)

-- What a client may rely on in an entry: it never offers more than the balance, `available` says
-- whether something can be withdrawn, and a reason is given exactly where nothing can.
pub record IsSound (e : ChainWithdrawalEntry) : Type 0 where
  pub within : e.withdrawable_wei ≤ e.balance_wei
  pub offers : (e.available ≡ true) ↔ (0 < e.withdrawable_wei)
  pub explains : (e.reason ≡ none) ↔ (e.available ≡ true)

unavailable-IsSound : (i : ChainWithdrawalInput) (why : Bytes) → IsSound (unavailable i why)
unavailable-IsSound i why = ground arith

routed-IsSound : (i : ChainWithdrawalInput) → IsSound (routed i)
unfolding routed
routed-IsSound i = elim (Bool-cases (min i.balance_wei i.reserve_depth_wei == 0)) [
  | inl z ↦ rw z (unavailable-IsSound i insufficient_reserve)
  | inr p ↦ rw p (ground arith)
]

-- Every entry of the response is sound, whatever the inputs.
compute_withdrawal_routing-IsSound :
    (inputs : List ChainWithdrawalInput) → All IsSound (compute_withdrawal_routing inputs)
unfolding compute_withdrawal_routing
compute_withdrawal_routing-IsSound [] = tt
compute_withdrawal_routing-IsSound (i ∷ is) = ground (
  arith,
  compute_withdrawal_routing-IsSound is,
  routed-IsSound i,
  unavailable-IsSound i chain_inactive,
)

-- What the response offers in all, and what could be paid out: on each active chain that is not
-- decommissioned, the smaller of the balance and the reserve.
abbrev pub offered : List ChainWithdrawalEntry → ℕ
offered [] = 0
offered (e ∷ es) = e.withdrawable_wei + offered es

abbrev pub payable : List ChainWithdrawalInput → ℕ
payable [] = 0
payable (i ∷ is) =
    (if i.decommissioned
      then 0
      else (if i.active then min i.balance_wei i.reserve_depth_wei else 0))
    + payable is

-- The response offers exactly what can be paid out on the active chains.
offered-compute_withdrawal_routing :
    (inputs : List ChainWithdrawalInput)
    → offered (compute_withdrawal_routing inputs) ≡ payable inputs
unfolding compute_withdrawal_routing
offered-compute_withdrawal_routing [] = refl
offered-compute_withdrawal_routing (i ∷ is) = ground (arith, offered-compute_withdrawal_routing is)
