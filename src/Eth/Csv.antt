-- ===== src/Eth/Csv.antt =====
-- `str::from_utf8`, and the chain numbers of a text with commas, as `decode_active_chains_from_event` of
-- services/treasury/src/eth/encoding.rs reads them.
use web_3_bank.Prelude.{
  ℕ, ◌+◌, ◌-◌, ◌*◌, ◌^◌, Bool, ◌&&◌, ◌||◌, Option, none, some, List, [], ◌∷◌, ltb, leb, ◌==◌,
  if◌then◌else◌, Bytes,
}

-- A character of which some bytes are read: how many are left, the range of the next, and the value.
record Partial : Type 0 where
  left : ℕ
  low : ℕ
  high : ℕ
  value : ℕ

within : ℕ → ℕ → ℕ → Bool
within low high b = leb low b && leb b high

abbrev partial : ℕ → ℕ → ℕ → ℕ → Partial
partial left low high value = record { left = left; low = low; high = high; value = value }

-- The first byte of a character.
lead_byte : ℕ → Option Partial
unfolding within
lead_byte b =
    if leb b 127
    then some (partial 0 128 191 b)
    else (if within 194 223 b
        then some (partial 1 128 191 (b - 192))
        else (if b == 224
            then some (partial 2 160 191 0)
            else (if b == 237
                then some (partial 2 128 159 13)
                else (if within 225 239 b
                    then some (partial 2 128 191 (b - 224))
                    else (if b == 240
                        then some (partial 3 144 191 0)
                        else (if within 241 243 b
                            then some (partial 3 128 191 (b - 240))
                            else (if b == 244 then some (partial 3 128 143 4) else none)))))))

next_byte : Partial → ℕ → Option Partial
unfolding lead_byte within
next_byte p b =
    if p.left == 0
    then lead_byte b
    else (if within p.low p.high b
        then some (partial (p.left - 1) 128 191 (p.value * 64 + (b - 128)))
        else none)

add_char : Partial → Option (List ℕ) → Option (List ℕ)
add_char p none = none
add_char p (some cs) = if p.left == 0 then some (p.value ∷ cs) else some cs

utf8_chars : Partial → Bytes → Option (List ℕ)
unfolding next_byte add_char
utf8_chars p [] = if p.left == 0 then some [] else none
utf8_chars p (b ∷ bs) = elim (next_byte p b) [ none ↦ none | some q ↦ add_char q (utf8_chars q bs) ]

-- The characters of a text, or `none` if the bytes are none.
unfoldable pub from_utf8 : Bytes → Option (List ℕ)
unfolding utf8_chars
from_utf8 bs = utf8_chars (partial 0 128 191 0) bs

-- `char::is_whitespace`
unfoldable pub is_whitespace : ℕ → Bool
unfolding within
is_whitespace c =
    within 9 13 c
    || (c == 32
        || (c == 133
            || (c == 160
                || (c == 5760
                    || (within 8192 8202 c
                        || (within 8232 8233 c || (c == 8239 || (c == 8287 || c == 12288))))))))

unfoldable pub trim_start : List ℕ → List ℕ
unfolding is_whitespace
trim_start [] = []
trim_start (c ∷ cs) = let rest = trim_start cs in if is_whitespace c then rest else c ∷ cs

-- Whitespace is kept only before a character that is not.
unfoldable pub trim_end : List ℕ → List ℕ
unfolding is_whitespace
trim_end [] = []
trim_end (c ∷ cs) = elim (trim_end cs) [
  | [] ↦ if is_whitespace c then [] else c ∷ []
  | d ∷ ds ↦ c ∷ d ∷ ds
]

-- `str::trim`
unfoldable pub trim : List ℕ → List ℕ
unfolding trim_start trim_end
trim cs = trim_end (trim_start cs)

unfoldable pub parse_digits : ℕ → List ℕ → Option ℕ
unfolding within
parse_digits n [] = some n
parse_digits n (c ∷ cs) =
    let m = n * 10 + (c - b'0') in
    let rest = parse_digits m cs in if within b'0' b'9' c && ltb m (2 ^ 64) then rest else none

-- `parse::<u64>()`, which takes a leading `+`.
unfoldable pub parse_u64 : List ℕ → Option ℕ
unfolding parse_digits
parse_u64 [] = none
parse_u64 (c ∷ []) = if c == b'+' then none else parse_digits 0 (c ∷ [])
parse_u64 (c ∷ d ∷ cs) = if c == b'+' then parse_digits 0 (d ∷ cs) else parse_digits 0 (c ∷ d ∷ cs)

-- `split(',')`: the part before the first comma, and the others.
split_commas : List ℕ → List ℕ × List (List ℕ)
split_commas [] = ([], [])
split_commas (c ∷ cs) =
    let (part, parts) = split_commas cs in
    if c == b',' then ([], part ∷ parts) else (c ∷ part, parts)

add_chain : Option ℕ → List ℕ → List ℕ
add_chain none chains = chains
add_chain (some n) chains = n ∷ chains

parse_parts : List (List ℕ) → List ℕ
unfolding add_chain parse_u64 trim
parse_parts [] = []
parse_parts (part ∷ parts) = add_chain (parse_u64 (trim part)) (parse_parts parts)

-- The numbers among the parts; others are left out.
unfoldable pub parse_csv : List ℕ → List ℕ
unfolding split_commas parse_parts
parse_csv cs = let (part, parts) = split_commas cs in parse_parts (part ∷ parts)
