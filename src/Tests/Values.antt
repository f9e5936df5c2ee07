-- ===== src/Tests/Values.antt =====
-- Texts, routing and balances.
use web_3_bank.Prelude.{ℕ, ◌≡◌, refl, Bool, true, false, none, some, List, [], ◌∷◌, codes}
use web_3_bank.Eth.Hex.{bytes_to_hex, decode_hex}
use web_3_bank.Domain.Withdrawal.{ChainWithdrawalInput}
use web_3_bank.Domain.Balance.{ChainBalanceContribution}

hex_round_trip : bytes_to_hex (0xde ∷ 0xad ∷ 0xbe ∷ 0xef ∷ []) ≡ codes "deadbeef"
unfolding bytes_to_hex
hex_round_trip = refl

decode_hex_odd_length : decode_hex (codes "abc") ≡ none
unfolding decode_hex
decode_hex_odd_length = refl

-- A quirk of the standard library's parser.
decode_hex_plus : decode_hex (codes "0x+f") ≡ some (15 ∷ [])
unfolding decode_hex
decode_hex_plus = refl

abbrev input : ℕ → ℕ → Bool → Bool → ChainWithdrawalInput
input balance reserve active decommissioned = record {
  chain_id = 1;
  balance_wei = balance;
  reserve_depth_wei = reserve;
  active = active;
  decommissioned = decommissioned;
}

abbrev inputs : List ChainWithdrawalInput
inputs =
    input 10 4 true false ∷ input 10 0 true false ∷ input 7 9 false false ∷ input 8 8 true true ∷ []

abbrev contributions : List ChainBalanceContribution
contributions =
    record { amount = 1000; used_fallback = false }
    ∷ record { amount = 200; used_fallback = true }
    ∷ []
