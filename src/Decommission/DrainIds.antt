-- ===== src/Decommission/DrainIds.antt =====
-- The identifier of a drain, `make_drain_id` and `parse_drain_id` of
-- services/treasury/src/decommission_runtime.rs.
use web_3_bank.Prelude.{
  ℕ, zero, suc, ◌+◌, ◌-◌, ◌*◌, ◌/◌, ◌%◌, ◌^◌, ◌<◌, ◌≤◌, ◌≡◌, refl, ap, ◌∙◌, true, false, Bool-cases,
  inl, inr, lt→ltb, ltb→lt, length, All-append, All-map, Option, none, some, List, [], ◌∷◌, ◌++◌,
  ◌==◌, ltb, leb, All, if◌then◌else◌, Bytes, codes, decimal_digits, arith,
}
use web_3_bank.Eth.Csv.{trim, trim_start, trim_end, is_whitespace, parse_u64, parse_digits}

-- `split('-')`: the part before the first dash, and the others.
unfoldable pub split_dashes : Bytes → Bytes × List Bytes
split_dashes [] = ([], [])
split_dashes (c ∷ cs) =
    let (part, parts) = split_dashes cs in
    if c == b'-' then ([], part ∷ parts) else (c ∷ part, parts)

pair_of : Option ℕ → Option ℕ → Option (ℕ × ℕ)
pair_of none dst = none
pair_of (some src) none = none
pair_of (some src) (some dst) = some (src, dst)

-- Exactly two parts.
two_parts : Bytes × List Bytes → Option (ℕ × ℕ)
unfolding pair_of parse_u64
two_parts (src, []) = none
two_parts (src, dst ∷ []) = pair_of (parse_u64 src) (parse_u64 dst)
two_parts (src, dst ∷ more ∷ parts) = none

unfoldable pub parse_drain_id : Bytes → Option (ℕ × ℕ)
unfolding two_parts split_dashes trim
parse_drain_id drain_id = two_parts (split_dashes (trim drain_id))

-- A `u64` has at most 20 digits.
unfoldable pub make_drain_id : ℕ → ℕ → Bytes
unfolding decimal_digits
make_drain_id source target =
    decimal_digits 20 source [] ++ (codes "-" ++ decimal_digits 20 target [])

abbrev IsDigit : ℕ → Type 0
IsDigit c = (48 ≤ c) × (c ≤ 57)

digits-All : (f n : ℕ) (tail : Bytes) → All IsDigit tail → All IsDigit (decimal_digits f n tail)
unfolding decimal_digits
digits-All zero n tail h = h
digits-All (suc f) n tail h = elim (Bool-cases (ltb n 10)) [
  | inl small ↦ rw small ((omega arith, ground arith), h)
  | inr large ↦
      rw large (digits-All f (n / 10) ((48 + n % 10) ∷ tail) ((omega arith, omega arith), h))
]

-- One more digit is read.
digit_read :
    (n d : ℕ) (tail : Bytes)
    → d < 10
    → n * 10 + d < 2 ^ 64
    → parse_digits n ((48 + d) ∷ tail) ≡ parse_digits (n * 10 + d) tail
unfolding parse_digits
digit_read n d tail small fits =
    let low : leb 48 (48 + d) ≡ true = ground arith in
    let high : leb (48 + d) 57 ≡ true = ground arith in
    let value : 48 + d - 48 ≡ d = omega arith in
    let within : ltb (n * 10 + d) (2 ^ 64) ≡ true = ground arith in
    rw (value, low, high, within) refl

one_digit : (n : ℕ) (tail : Bytes) → n < 10 → parse_digits 0 ((48 + n) ∷ tail) ≡ parse_digits n tail
one_digit n tail h =
    digit_read 0 n tail h (omega arith) ∙ ap (λ k. parse_digits k tail) (omega arith)

-- The digits of a number are read before what follows them.
digits_read :
    (f n : ℕ) (tail : Bytes)
    → n < 10 ^ suc f
    → n < 2 ^ 64
    → parse_digits 0 (decimal_digits (suc f) n tail) ≡ parse_digits n tail
unfolding decimal_digits
digits_read zero n tail h fits =
    let small : n < 10 = omega arith in rw (lt→ltb n 10 small) (one_digit n tail small)
digits_read (suc f) n tail h fits = elim (Bool-cases (ltb n 10)) [
  | inl small ↦ rw small (one_digit n tail (ltb→lt n 10 small))
  | inr large ↦
      let power : 10 ^ suc (suc f) ≡ 10 ^ suc f * 10 = ground arith in
      let whole : n / 10 * 10 + n % 10 ≡ n = omega arith in
      rw large (
        digits_read f (n / 10) ((48 + n % 10) ∷ tail) (omega (arith, power)) (omega arith)
        ∙ (digit_read (n / 10) (n % 10) tail (omega arith) (omega arith)
            ∙ ap (λ k. parse_digits k tail) whole))
]

digits-parse_u64 : (n : ℕ) → n < 2 ^ 64 → parse_digits 0 (decimal_digits 20 n []) ≡ some n
unfolding parse_digits
digits-parse_u64 n h = digits_read 19 n [] (omega arith) h

-- A text of digits that is not empty is read without a sign.
read_digits :
    (cs : Bytes)
    → All IsDigit cs
    → (n : ℕ) → parse_digits 0 cs ≡ some n
    → 1 ≤ length cs
    → parse_u64 cs ≡ some n
unfolding parse_u64
read_digits [] all n h some_digit = absurd (omega arith)
read_digits (c ∷ []) all n h some_digit =
    let unsigned : (c == b'+') ≡ false = ground arith in rw unsigned h
read_digits (c ∷ d ∷ cs) all n h some_digit =
    let unsigned : (c == b'+') ≡ false = ground arith in rw unsigned h

length-digits : (f n : ℕ) (tail : Bytes) → 1 ≤ length (decimal_digits (suc f) n tail)
unfolding decimal_digits
length-digits zero n tail = ground arith
length-digits (suc f) n tail = elim (Bool-cases (ltb n 10)) [
  | inl small ↦ rw small (omega arith)
  | inr large ↦ rw large (length-digits f (n / 10) ((48 + n % 10) ∷ tail))
]

-- Digits and dashes are no whitespace.
abbrev IsPlain : ℕ → Type 0
IsPlain c = is_whitespace c ≡ false

IsDigit-IsPlain : (c : ℕ) → IsDigit c → IsPlain c
unfolding is_whitespace
IsDigit-IsPlain c h = ground arith

trim_start-plain : (cs : Bytes) → All IsPlain cs → trim_start cs ≡ cs
unfolding trim_start
trim_start-plain [] h = refl
trim_start-plain (c ∷ cs) h = rw h.0 refl

trim_end-plain : (cs : Bytes) → All IsPlain cs → trim_end cs ≡ cs
unfolding trim_end
trim_end-plain [] h = refl
trim_end-plain (c ∷ []) h = rw h.0 refl
trim_end-plain (c ∷ d ∷ cs) h = rw (trim_end-plain (d ∷ cs) h.1, trim_end) refl

trim-plain : (cs : Bytes) → All IsPlain cs → trim cs ≡ cs
unfolding trim
trim-plain cs h = rw (trim_start-plain cs h) (trim_end-plain cs h)

-- A text without dashes is one part.
split_dashes-digits : (cs : Bytes) → All IsDigit cs → split_dashes cs ≡ (cs, [])
unfolding split_dashes
split_dashes-digits [] h = refl
split_dashes-digits (c ∷ cs) h =
    let plain : (c == b'-') ≡ false = ground arith in
    rw (split_dashes-digits cs h.1, plain, split_dashes) refl

split_dashes-pair :
    (cs ds : Bytes)
    → All IsDigit cs
    → All IsDigit ds
    → split_dashes (cs ++ (b'-' ∷ ds)) ≡ (cs, ds ∷ [])
unfolding split_dashes
split_dashes-pair [] ds h k = rw (split_dashes-digits ds k) refl
split_dashes-pair (c ∷ cs) ds h k =
    let plain : (c == b'-') ≡ false = ground arith in
    rw (split_dashes-pair cs ds h.1 k, plain, split_dashes) refl

-- The identifier that is made of two chains, each a u64, is read back as these two chains.
pub parse_drain_id-make_drain_id :
    (source target : ℕ)
    → source < 2 ^ 64
    → target < 2 ^ 64
    → parse_drain_id (make_drain_id source target) ≡ some (source, target)
unfolding parse_drain_id make_drain_id two_parts
parse_drain_id-make_drain_id source target h k =
    let s = decimal_digits 20 source [] in
    let t = decimal_digits 20 target [] in
    let s_all = digits-All 20 source [] tt in
    let t_all = digits-All 20 target [] tt in
    let plain : All IsPlain (s ++ (b'-' ∷ t)) =
      All-append IsPlain s (b'-' ∷ t) (All-map IsDigit IsPlain IsDigit-IsPlain s s_all)
        (dash_plain, All-map IsDigit IsPlain IsDigit-IsPlain t t_all) in
    rw
      (
        trim-plain (s ++ (b'-' ∷ t)) plain,
        split_dashes-pair s t s_all t_all,
        read_digits s s_all source (digits-parse_u64 source h) (length-digits 19 source []),
        read_digits t t_all target (digits-parse_u64 target k) (length-digits 19 target []),
      )
      refl
  where
    dash_plain : IsPlain b'-'
    dash_plain = refl
