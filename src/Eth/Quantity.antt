-- ===== src/Eth/Quantity.antt =====
-- `parse_hex_u64` of services/treasury/src/eth/rpc.rs.
use web_3_bank.Prelude.{
  ℕ, ◌+◌, ◌*◌, ◌^◌, ◌&&◌, Option, none, some, [], ◌∷◌, ltb, ◌==◌, if◌then◌else◌, Bytes,
}
use web_3_bank.Eth.Hex.{digit_value}

-- `trim_start_matches("0x")`
trim_0x : Bytes → Bytes
trim_0x [] = []
trim_0x (a ∷ []) = a ∷ []
trim_0x (a ∷ b ∷ s) = let rest = trim_0x s in if (a == b'0') && (b == b'x') then rest else a ∷ b ∷ s

hex_digits : ℕ → Bytes → Option ℕ
unfolding digit_value
hex_digits n [] = some n
hex_digits n (c ∷ cs) = elim (digit_value c) [
  | none ↦ none
  | some d ↦
      let m = n * 16 + d in let rest = hex_digits m cs in if ltb m (2 ^ 64) then rest else none
]

-- `u64::from_str_radix(_, 16)`, which takes a leading `+`.
from_hex : Bytes → Option ℕ
unfolding hex_digits
from_hex [] = none
from_hex (c ∷ []) = if c == b'+' then none else hex_digits 0 (c ∷ [])
from_hex (c ∷ d ∷ cs) = if c == b'+' then hex_digits 0 (d ∷ cs) else hex_digits 0 (c ∷ d ∷ cs)

unfoldable pub parse_hex_u64 : Bytes → Option ℕ
unfolding trim_0x from_hex
parse_hex_u64 hex = from_hex (trim_0x hex)
