-- ===== src/Eth/Hex.antt =====
-- Hexadecimal text, from services/treasury/src/eth/encoding.rs.
use web_3_bank.Prelude.{
  ℕ, ◌+◌, ◌-◌, ◌*◌, ◌/◌, ◌%◌, ◌<◌, ◌≡◌, refl, false, ◌&&◌, Option, none, some, [], ◌∷◌, ◌++◌, arith,
  ltb, leb, ◌==◌, if◌then◌else◌, Bytes, codes, All,
}

-- One digit of `{:02x}`.
hex_digit : ℕ → ℕ
hex_digit n = if ltb n 10 then 48 + n else 87 + n

unfoldable pub bytes_to_hex : Bytes → Bytes
unfolding hex_digit
bytes_to_hex [] = []
bytes_to_hex (b ∷ bs) = hex_digit (b / 16) ∷ hex_digit (b % 16) ∷ bytes_to_hex bs

-- A digit that `from_str_radix(_, 16)` accepts.
unfoldable pub digit_value : ℕ → Option ℕ
digit_value c =
    if leb b'0' c && leb c b'9'
    then some (c - 48)
    else (if leb b'a' c && leb c b'f'
        then some (c - 87)
        else (if leb b'A' c && leb c b'F' then some (c - 55) else none))

two_digits : Option ℕ → Option ℕ → Option ℕ
two_digits none lo = none
two_digits (some h) none = none
two_digits (some h) (some l) = some (16 * h + l)

-- `u8::from_str_radix(_, 16)` on two characters; the standard library takes a leading `+`.
byte_of : ℕ → ℕ → Option ℕ
unfolding digit_value two_digits
byte_of a b = if a == b'+' then digit_value b else two_digits (digit_value a) (digit_value b)

byte_cons : Option ℕ → Option Bytes → Option Bytes
byte_cons none bs = none
byte_cons (some b) none = none
byte_cons (some b) (some bs) = some (b ∷ bs)

-- `none` on an odd length too.
decode_pairs : Bytes → Option Bytes
unfolding byte_of byte_cons
decode_pairs [] = some []
decode_pairs (a ∷ []) = none
decode_pairs (a ∷ b ∷ s) = byte_cons (byte_of a b) (decode_pairs s)

-- `s.strip_prefix("0x").unwrap_or(s)`
unfoldable pub strip_0x : Bytes → Bytes
strip_0x [] = []
strip_0x (a ∷ []) = a ∷ []
strip_0x (a ∷ b ∷ s) = if (a == b'0') && (b == b'x') then s else a ∷ b ∷ s

unfoldable pub decode_hex : Bytes → Option Bytes
unfolding decode_pairs strip_0x
decode_hex s = decode_pairs (strip_0x s)

abbrev pub AllBytes : Bytes → Type 0
AllBytes = All (λ b. b < 256)

byte_of-hex_digit : (b : ℕ) → b < 256 → byte_of (hex_digit (b / 16)) (hex_digit (b % 16)) ≡ some b
unfolding byte_of hex_digit
byte_of-hex_digit b h = ground arith

decode_pairs-bytes_to_hex : (bs : Bytes) → AllBytes bs → decode_pairs (bytes_to_hex bs) ≡ some bs
unfolding decode_pairs bytes_to_hex
decode_pairs-bytes_to_hex [] h = refl
decode_pairs-bytes_to_hex (b ∷ bs) h =
    rw (byte_of-hex_digit b h.0, decode_pairs-bytes_to_hex bs h.1)

-- A digit is no `x`, so no prefix is stripped.
hex_digit-ne-x : (n : ℕ) → n < 16 → (hex_digit n == b'x') ≡ false
unfolding hex_digit
hex_digit-ne-x n h = ground arith

strip_0x-bytes_to_hex : (bs : Bytes) → AllBytes bs → strip_0x (bytes_to_hex bs) ≡ bytes_to_hex bs
unfolding strip_0x bytes_to_hex
strip_0x-bytes_to_hex [] h = refl
strip_0x-bytes_to_hex (b ∷ bs) h = ground (arith, hex_digit-ne-x (b % 16) (omega arith))

-- Encoded bytes decode to themselves, with the prefix `0x` and without it.
pub decode_hex-bytes_to_hex :
    (bs : Bytes)
    → AllBytes bs
    → (decode_hex (bytes_to_hex bs) ≡ some bs)
      × (decode_hex (codes "0x" ++ bytes_to_hex bs) ≡ some bs)
unfolding decode_hex
decode_hex-bytes_to_hex bs h = (
  rw (strip_0x-bytes_to_hex bs h) (decode_pairs-bytes_to_hex bs h),
  decode_pairs-bytes_to_hex bs h,
)
