-- ===== src/Eth/Words.antt =====
-- The big-endian words of services/treasury/src/domain/abi.rs and their slices.
use web_3_bank.Prelude.{
  ℕ, zero, suc, ◌+◌, ◌*◌, ◌/◌, ◌%◌, ◌^◌, ◌<◌, ◌≡◌, refl, sym, ap, ◌∙◌, [], ◌∷◌, ◌++◌, Bytes, length,
  take, drop, arith,
}
use native.Mathlib.Nat.{one-le-pow, mod-lt, div-add-mod, add-mul-mod_self_left, mod-eq_of_lt}
use web_3_bank.Eth.Hex.{AllBytes}
use web_3_bank.Eth.Abi.{be_bytes, be_value}

pub length-be_bytes : (w n : ℕ) → length (be_bytes w n) ≡ w
unfolding be_bytes
length-be_bytes zero n = refl
length-be_bytes (suc w) n = omega (arith, length-be_bytes w n)

pub be_bytes-AllBytes : (w n : ℕ) → AllBytes (be_bytes w n)
unfolding be_bytes
be_bytes-AllBytes zero n = tt
be_bytes-AllBytes (suc w) n = (omega arith, be_bytes-AllBytes w n)

distributed : (p d e r : ℕ) → p * (256 * d + e) + r ≡ e * p + r + p * 256 * d
distributed p d e r = grind arith

-- The digit before the last ones, and those.
digit_before : (p n : ℕ) → 0 < p → (n / p) % 256 * p + n % p ≡ n % (p * 256)
digit_before p n h =
    let q = n / p in
    let low = q % 256 * p + n % p in
    let small : low < p * 256 =
      let r : n % p < p = mod-lt n h in let d : q % 256 < 256 = omega arith in grind arith in
    let whole : 256 * (q / 256) + q % 256 ≡ q = div-add-mod q 256 in
    let joined : p * (256 * (q / 256) + q % 256) + n % p ≡ n = rw whole (div-add-mod n p) in
    let split : n ≡ low + p * 256 * (q / 256) =
      sym joined ∙ distributed p (q / 256) (q % 256) (n % p) in
    sym (
      ap (λ m. m % (p * 256)) split
      ∙ (add-mul-mod_self_left low (p * 256) (q / 256) ∙ mod-eq_of_lt small))

-- A number is read back from its last `w` digits up to its multiples of `256 ^ w`.
pub be_value-be_bytes : (w n : ℕ) → be_value (be_bytes w n) ≡ n % 256 ^ w
unfolding be_value be_bytes
be_value-be_bytes zero n = omega arith
be_value-be_bytes (suc w) n =
    let power : 256 ^ suc w ≡ 256 ^ w * 256 = ground arith in
    rw (length-be_bytes w n, be_value-be_bytes w n, power)
      (digit_before (256 ^ w) n (one-le-pow w 256 (omega arith)))

pub take-length-append : (n : ℕ) (xs ys : Bytes) → length xs ≡ n → take n (xs ++ ys) ≡ xs
take-length-append zero [] ys h = refl
take-length-append zero (x ∷ xs) ys h = absurd (omega arith)
take-length-append (suc n) [] ys h = absurd (omega arith)
take-length-append (suc n) (x ∷ xs) ys h = rw (take-length-append n xs ys (omega arith)) refl

pub drop-length-append : (n : ℕ) (xs ys : Bytes) → length xs ≡ n → drop n (xs ++ ys) ≡ ys
drop-length-append zero [] ys h = refl
drop-length-append zero (x ∷ xs) ys h = absurd (omega arith)
drop-length-append (suc n) [] ys h = absurd (omega arith)
drop-length-append (suc n) (x ∷ xs) ys h = drop-length-append n xs ys (omega arith)

pub take-all : (n : ℕ) (xs : Bytes) → length xs ≡ n → take n xs ≡ xs
take-all zero [] h = refl
take-all zero (x ∷ xs) h = absurd (omega arith)
take-all (suc n) [] h = absurd (omega arith)
take-all (suc n) (x ∷ xs) h = rw (take-all n xs (omega arith)) refl
