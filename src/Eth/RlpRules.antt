-- ===== src/Eth/RlpRules.antt =====
-- The rules of RLP for a string and for a list, which refuse a form that is not the shortest, and the codes of services/treasury/src/eth/encoding.rs.
use web_3_bank.Prelude.{
  ℕ, ◌+◌, ◌-◌, ◌^◌, ◌≤◌, ◌<◌, ◌≡◌, refl, ap, ◌∙◌, Bool, true, false, not, ◌&&◌, Bool-cases, inl,
  inr, Option, none, some, [], ◌∷◌, ◌++◌, ltb, leb, ◌==◌, if◌then◌else◌, Bytes, length,
  length-append, take, drop, arith,
}
use mathlib.Core.List.{append_assoc}
use native.Mathlib.Nat.{mod-eq_of_lt}
use web_3_bank.Eth.Abi.{be_bytes, be_value, trim_zeros}
use web_3_bank.Eth.Words.{
  length-be_bytes, be_value-be_bytes, take-length-append, drop-length-append,
}
use web_3_bank.Eth.Rlp.{trimmed, header, is_single, rlp_encode_bytes}

-- The next bytes, if there are so many, and the rest.
split_at : ℕ → Bytes → Option (Bytes × Bytes)
split_at n bs = if leb n (length bs) then some (take n bs, drop n bs) else none

-- A number in its shortest form.
abbrev pub is_minimal : Bytes → Bool
is_minimal [] = true
is_minimal (b ∷ bs) = not (b == 0)

-- A length of `k` bytes, and that many bytes; a length of up to 55 or with a leading zero is refused.
sized : ℕ → Bytes → Option (Bytes × Bytes)
unfolding split_at be_value
sized k bs = elim (split_at k bs) [
  | none ↦ none
  | some (n, rest) ↦
      if is_minimal n && ltb 55 (be_value n) then split_at (be_value n) rest else none
]

-- A byte that stands for itself.
abbrev is_low : Bytes → Bool
is_low [] = false
is_low (b ∷ []) = ltb b 0x80
is_low (b ∷ c ∷ bs) = false

-- A string behind a header; a byte that stands for itself is refused.
not_low : Option (Bytes × Bytes) → Option (Bytes × Bytes)
not_low none = none
not_low (some (b, rest)) = if is_low b then none else some (b, rest)

-- A string of RLP, and the rest.
unfoldable pub rlp_item : Bytes → Option (Bytes × Bytes)
unfolding sized split_at not_low
rlp_item [] = none
rlp_item (b ∷ bs) =
    if ltb b 0x80
    then some (b ∷ [], bs)
    else (if leb b 0xb7
        then not_low (split_at (b - 0x80) bs)
        else (if leb b 0xbf then sized (b - 0xb7) bs else none))

-- The payload of a list of RLP, and the rest.
unfoldable pub rlp_list : Bytes → Option (Bytes × Bytes)
unfolding sized split_at
rlp_list [] = none
rlp_list (b ∷ bs) =
    if ltb b 0xc0
    then none
    else (if leb b 0xf7 then split_at (b - 0xc0) bs else sized (b - 0xf7) bs)

be_value-trim_zeros : (bs : Bytes) → be_value (trim_zeros bs) ≡ be_value bs
unfolding be_value trim_zeros
be_value-trim_zeros [] = refl
be_value-trim_zeros (b ∷ bs) = elim (Bool-cases (b == 0)) [
  | inl gone ↦ rw (gone, be_value-trim_zeros bs) (ground arith)
  | inr kept ↦ rw kept refl
]

trim_zeros-minimal : (bs : Bytes) → is_minimal (trim_zeros bs) ≡ true
unfolding trim_zeros
trim_zeros-minimal [] = refl
trim_zeros-minimal (b ∷ bs) = elim (Bool-cases (b == 0)) [
  | inl gone ↦ rw gone (trim_zeros-minimal bs)
  | inr kept ↦ rw (kept, kept) refl
]

pub trimmed-minimal : (n : ℕ) → is_minimal (trimmed n) ≡ true
unfolding trimmed
trimmed-minimal n = trim_zeros-minimal (be_bytes 8 n)

length-trim_zeros : (bs : Bytes) → length (trim_zeros bs) ≤ length bs
unfolding trim_zeros
length-trim_zeros [] = omega arith
length-trim_zeros (b ∷ bs) = elim (Bool-cases (b == 0)) [
  | inl gone ↦ rw gone (omega (arith, length-trim_zeros bs))
  | inr kept ↦ rw kept (omega arith)
]

pub length-trimmed : (n : ℕ) → length (trimmed n) ≤ 8
unfolding trimmed
length-trimmed n = omega (arith, length-trim_zeros (be_bytes 8 n), length-be_bytes 8 n)

pub be_value-trimmed : (n : ℕ) → n < 2 ^ 64 → be_value (trimmed n) ≡ n
unfolding trimmed
be_value-trimmed n h = be_value-trim_zeros (be_bytes 8 n) ∙ (be_value-be_bytes 8 n ∙ mod-eq_of_lt h)

split_at-append : (xs ys : Bytes) → split_at (length xs) (xs ++ ys) ≡ some (xs, ys)
unfolding split_at
split_at-append xs ys =
    let fits : leb (length xs) (length (xs ++ ys)) ≡ true =
      rw (length-append xs ys) (ground arith) in
    rw (fits, take-length-append (length xs) xs ys refl, drop-length-append (length xs) xs ys refl)
      refl

sized-trimmed :
    (xs ys : Bytes)
    → length xs < 2 ^ 64
    → leb (length xs) 55 ≡ false
    → sized (length (trimmed (length xs))) (trimmed (length xs) ++ (xs ++ ys)) ≡ some (xs, ys)
unfolding sized
sized-trimmed xs ys h long =
    let above : ltb 55 (length xs) ≡ true = ground arith in
    rw
      (
        split_at-append (trimmed (length xs)) (xs ++ ys),
        trimmed-minimal (length xs),
        be_value-trimmed (length xs) h,
        above,
        sized,
      )
      (split_at-append xs ys)

is_low-is_single : (b : Bytes) → is_low b ≡ is_single b
is_low-is_single [] = refl
is_low-is_single (b ∷ []) = refl
is_low-is_single (b ∷ c ∷ bs) = refl

single_item : (b rest : Bytes) → is_single b ≡ true → rlp_item (b ++ rest) ≡ some (b, rest)
unfolding rlp_item
single_item [] rest h = absurd (ground arith)
single_item (b ∷ []) rest h = rw h refl
single_item (b ∷ c ∷ bs) rest h = absurd (ground arith)

pub header-short : (s l n : ℕ) → leb n 55 ≡ true → header s l n ≡ (s + n) ∷ []
unfolding header
header-short s l n h = rw h refl

pub header-long :
    (s l n : ℕ) → leb n 55 ≡ false → header s l n ≡ (l + length (trimmed n)) ∷ trimmed n
unfolding header
header-long s l n h = rw h refl

-- The length of a length above 55.
trimmed-positive : (n : ℕ) → n < 2 ^ 64 → leb n 55 ≡ false → 1 ≤ length (trimmed n)
unfolding be_value
trimmed-positive n h long = not_empty (trimmed n) (be_value-trimmed n h)
  where
    not_empty : (bs : Bytes) → be_value bs ≡ n → 1 ≤ length bs
    not_empty [] e = absurd (ground arith)
    not_empty (b ∷ bs) e = omega arith

short_item : (n : ℕ) (bs : Bytes) → n ≤ 55 → rlp_item ((0x80 + n) ∷ bs) ≡ not_low (split_at n bs)
unfolding rlp_item
short_item n bs h =
    let high : ltb (0x80 + n) 0x80 ≡ false = ground arith in
    let low : leb (0x80 + n) 0xb7 ≡ true = ground arith in
    let back : 0x80 + n - 0x80 ≡ n = omega arith in rw (high, low, back) refl

long_item : (k : ℕ) (bs : Bytes) → 1 ≤ k → k ≤ 8 → rlp_item ((0xb7 + k) ∷ bs) ≡ sized k bs
unfolding rlp_item
long_item k bs g h =
    let high : ltb (0xb7 + k) 0x80 ≡ false = ground arith in
    let above : leb (0xb7 + k) 0xb7 ≡ false = ground arith in
    let low : leb (0xb7 + k) 0xbf ≡ true = ground arith in
    let back : 0xb7 + k - 0xb7 ≡ k = omega arith in rw (high, above, low, back) refl

short_list : (n : ℕ) (bs : Bytes) → n ≤ 55 → rlp_list ((0xc0 + n) ∷ bs) ≡ split_at n bs
unfolding rlp_list
short_list n bs h =
    let high : ltb (0xc0 + n) 0xc0 ≡ false = ground arith in
    let low : leb (0xc0 + n) 0xf7 ≡ true = ground arith in
    let back : 0xc0 + n - 0xc0 ≡ n = omega arith in rw (high, low, back) refl

long_list : (k : ℕ) (bs : Bytes) → 1 ≤ k → rlp_list ((0xf7 + k) ∷ bs) ≡ sized k bs
unfolding rlp_list
long_list k bs g =
    let high : ltb (0xf7 + k) 0xc0 ≡ false = ground arith in
    let above : leb (0xf7 + k) 0xf7 ≡ false = ground arith in
    let back : 0xf7 + k - 0xf7 ≡ k = omega arith in rw (high, above, back) refl

header-item :
    (b rest : Bytes)
    → length b < 2 ^ 64
    → is_single b ≡ false
    → rlp_item (header 0x80 0xb7 (length b) ++ (b ++ rest)) ≡ some (b, rest)
unfolding not_low
header-item b rest h several = elim (Bool-cases (leb (length b) 55)) [
  | inl short ↦ rw (header-short 0x80 0xb7 (length b) short) (
      short_item (length b) (b ++ rest) (ground arith)
      ∙ (ap not_low (split_at-append b rest) ∙ rw (is_low-is_single b, several) refl))
  | inr long ↦ rw (header-long 0x80 0xb7 (length b) long) (
      long_item (length (trimmed (length b))) (trimmed (length b) ++ (b ++ rest))
        (trimmed-positive (length b) h long) (length-trimmed (length b))
      ∙ sized-trimmed b rest h long)
]

pub header-list :
    (b rest : Bytes)
    → length b < 2 ^ 64
    → rlp_list (header 0xc0 0xf7 (length b) ++ (b ++ rest)) ≡ some (b, rest)
header-list b rest h = elim (Bool-cases (leb (length b) 55)) [
  | inl short ↦
      rw (header-short 0xc0 0xf7 (length b) short)
        (short_list (length b) (b ++ rest) (ground arith) ∙ split_at-append b rest)
  | inr long ↦ rw (header-long 0xc0 0xf7 (length b) long) (
      long_list (length (trimmed (length b))) (trimmed (length b) ++ (b ++ rest))
        (trimmed-positive (length b) h long)
      ∙ sized-trimmed b rest h long)
]

-- A string of RLP is read back.
pub rlp_item-rlp_encode_bytes :
    (b rest : Bytes) → length b < 2 ^ 64 → rlp_item (rlp_encode_bytes b ++ rest) ≡ some (b, rest)
unfolding rlp_item rlp_encode_bytes
rlp_item-rlp_encode_bytes b rest h = elim (Bool-cases (is_single b)) [
  | inl single ↦ rw single (single_item b rest single)
  | inr several ↦
      rw (several, append_assoc (header 0x80 0xb7 (length b)) b rest) (header-item b rest h several)
]
