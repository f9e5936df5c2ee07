-- ===== src/Eth/BridgeIn.antt =====
-- The layout of `encode_bridge_in`, services/treasury/src/domain/abi.rs, against Solidity's rules for
-- two arguments of type `bytes`.
use web_3_bank.Prelude.{
  ℕ, zero, suc, ◌+◌, ◌*◌, ◌%◌, ◌^◌, ◌<◌, ◌≤◌, ◌≡◌, refl, sym, ap, ◌∙◌, [], ◌++◌, Bytes, length,
  length-append, replicate, take, drop, arith,
}
use mathlib.Core.List.{append_assoc}
use native.Mathlib.Nat.{mod-eq_of_lt}
use web_3_bank.Eth.Abi.{be_bytes, be_value, pad_len, write_u256, write_bytes, encode_bridge_in}
use web_3_bank.Eth.Words.{be_value-be_bytes, take-length-append, drop-length-append}

-- The word at an offset of the arguments.
unfoldable pub word_at : ℕ → Bytes → ℕ
unfolding be_value
word_at offset args = be_value (take 32 (drop offset args))

-- The argument of type `bytes` whose head is the word with the given number.
unfoldable pub bytes_argument : ℕ → Bytes → Bytes
unfolding word_at
bytes_argument index args =
    let offset = word_at (32 * index) args in take (word_at offset args) (drop (offset + 32) args)

length-replicate : (n : ℕ) (b : ℕ) → length (replicate n b) ≡ n
length-replicate zero b = refl
length-replicate (suc n) b = omega (arith, length-replicate n b)

be_value-zeros : (k : ℕ) (bs : Bytes) → be_value (replicate k 0 ++ bs) ≡ be_value bs
unfolding be_value
be_value-zeros zero bs = refl
be_value-zeros (suc k) bs = rw (be_value-zeros k bs) (omega arith)

length-write_u256 : (n : ℕ) → length (write_u256 n) ≡ 32
unfolding write_u256 be_bytes
length-write_u256 n = refl

be_value-write_u256 : (n : ℕ) → n < 2 ^ 64 → be_value (write_u256 n) ≡ n
unfolding write_u256
be_value-write_u256 n small =
    be_value-zeros 24 (be_bytes 8 n) ∙ (be_value-be_bytes 8 n ∙ mod-eq_of_lt small)

-- A word that stands after what comes before its offset.
word_at-append :
    (offset : ℕ) (before word after : Bytes)
    → length before ≡ offset
    → length word ≡ 32
    → word_at offset (before ++ (word ++ after)) ≡ be_value word
unfolding word_at
word_at-append offset before word after h full =
    rw (drop-length-append offset before (word ++ after) h, take-length-append 32 word after full)
      refl

-- The bytes of a tail that stands after what comes before its offset.
tail_at :
    (offset : ℕ) (before word b after : Bytes)
    → length before ≡ offset
    → length word ≡ 32
    → be_value word ≡ length b
    → take
        (word_at offset (before ++ (word ++ (b ++ after))))
        (drop (offset + 32) (before ++ (word ++ (b ++ after))))
      ≡ b
tail_at offset before word b after h full value =
    let read = word_at-append offset before word (b ++ after) h full in
    let joined : before ++ (word ++ (b ++ after)) ≡ (before ++ word) ++ (b ++ after) =
      sym (append_assoc before word (b ++ after)) in
    let skipped : drop (offset + 32) ((before ++ word) ++ (b ++ after)) ≡ b ++ after =
      drop-length-append (offset + 32) (before ++ word) (b ++ after)
        (omega (arith, length-append before word, h, full)) in
    rw (read, value, ap (drop (offset + 32)) joined, skipped)
      (take-length-append (length b) b after refl)

-- Two heads and two tails, each a length, bytes and a padding.
abbrev layout_of : Bytes → Bytes → Bytes → Bytes → Bytes → Bytes → Bytes → Bytes → Bytes
layout_of h0 h1 w0 w1 b0 b1 p0 p1 = h0 ++ (h1 ++ ((w0 ++ (b0 ++ p0)) ++ (w1 ++ (b1 ++ p1))))

-- Whole words, if the heads are words and the tails fill whole words.
length_of_whole :
    (h0 h1 t0 t1 : Bytes)
    → length h0 ≡ 32
    → length h1 ≡ 32
    → length t0 % 32 ≡ 0
    → length t1 % 32 ≡ 0
    → length (h0 ++ (h1 ++ (t0 ++ t1))) % 32 ≡ 0
length_of_whole h0 h1 t0 t1 a b c d =
    omega
      (arith, length-append h0 (h1 ++ (t0 ++ t1)), length-append h1 (t0 ++ t1), length-append t0 t1)

module _ (h0 h1 w0 w1 b0 b1 p0 p1 : Bytes) (full0 : length h0 ≡ 32) (full1 : length h1 ≡ 32)
    (word0 : length w0 ≡ 32) (word1 : length w1 ≡ 32) (size0 : be_value w0 ≡ length b0)
    (size1 : be_value w1 ≡ length b1) (first : be_value h0 ≡ 64)
    (second : be_value h1 ≡ 96 + length b0 + length p0) where
  layout_first : bytes_argument 0 (layout_of h0 h1 w0 w1 b0 b1 p0 p1) ≡ b0
  unfolding bytes_argument
  layout_first =
      let tail1 = w1 ++ (b1 ++ p1) in
      let head : word_at 0 (layout_of h0 h1 w0 w1 b0 b1 p0 p1) ≡ 64 =
        word_at-append 0 [] h0 (h1 ++ ((w0 ++ (b0 ++ p0)) ++ tail1)) refl full0 ∙ first in
      let joined : (layout_of h0 h1 w0 w1 b0 b1 p0 p1)
          ≡ (h0 ++ h1) ++ (w0 ++ (b0 ++ (p0 ++ tail1))) =
        rw (append_assoc, append_assoc, append_assoc) refl in
      rw (head, joined)
        (tail_at 64 (h0 ++ h1) w0 b0 (p0 ++ tail1)
          (omega (arith, length-append h0 h1, full0, full1)) word0 size0)

  layout_second : bytes_argument 1 (layout_of h0 h1 w0 w1 b0 b1 p0 p1) ≡ b1
  unfolding bytes_argument
  layout_second =
      let tail0 = w0 ++ (b0 ++ p0) in
      let tail1 = w1 ++ (b1 ++ p1) in
      let before = h0 ++ (h1 ++ tail0) in
      let head : word_at 32 (layout_of h0 h1 w0 w1 b0 b1 p0 p1) ≡ 96 + length b0 + length p0 =
        word_at-append 32 h0 h1 (tail0 ++ tail1) full0 full1 ∙ second in
      let joined : (layout_of h0 h1 w0 w1 b0 b1 p0 p1) ≡ before ++ (w1 ++ (b1 ++ p1)) =
        ap (λ r. h0 ++ r) (sym (append_assoc h1 tail0 tail1))
        ∙ sym (append_assoc h0 (h1 ++ tail0) tail1) in
      let size : length before ≡ 96 + length b0 + length p0 = omega (
        arith,
        length-append h0 (h1 ++ tail0),
        length-append h1 tail0,
        length-append w0 (b0 ++ p0),
        length-append b0 p0,
        full0,
        full1,
        word0,
      ) in
      rw (head, joined) (tail_at (96 + length b0 + length p0) before w1 b1 p1 size word1 size1)

-- A text with its padding fills whole words.
padded_words : (n : ℕ) → (n + pad_len n) % 32 ≡ 0
unfolding pad_len
padded_words n = ground arith

pad_len-le : (n : ℕ) → pad_len n ≤ 31
unfolding pad_len
pad_len-le n = ground arith

length-write_bytes : (b : Bytes) → length (write_bytes b) % 32 ≡ 0
unfolding write_bytes
length-write_bytes b =
    let pad : Bytes = replicate (pad_len (length b)) 0 in
    omega
      (arith, length-append b pad, length-replicate (pad_len (length b)) 0, padded_words (length b))

-- The call data of `bridgeIn` is decoded by Solidity's rules to the message and to the attestation,
-- and its arguments fill whole words, for a selector of 4 bytes and lengths that leave the offsets
-- below 2 ^ 64.
pub bytes_argument-encode_bridge_in :
    (selector message attestation : Bytes)
    → length selector ≡ 4
    → 128 + length message < 2 ^ 64
    → length attestation < 2 ^ 64
    → (bytes_argument 0 (drop 4 (encode_bridge_in selector message attestation)) ≡ message)
      × ((bytes_argument 1 (drop 4 (encode_bridge_in selector message attestation)) ≡ attestation)
          × (length (drop 4 (encode_bridge_in selector message attestation)) % 32 ≡ 0))
unfolding encode_bridge_in
bytes_argument-encode_bridge_in selector message attestation four small0 small1 =
    let p0 : Bytes = replicate (pad_len (length message)) 0 in
    let p1 : Bytes = replicate (pad_len (length attestation)) 0 in
    let pad0 = length-replicate (pad_len (length message)) 0 in
    let offset = 64 + 32 + length message + pad_len (length message) in
    let h1 = write_u256 offset in
    let w0 = write_u256 (length message) in
    let w1 = write_u256 (length attestation) in
    let size0 = be_value-write_u256 (length message) (omega arith) in
    let size1 = be_value-write_u256 (length attestation) small1 in
    let first = be_value-write_u256 64 (omega arith) in
    let near : offset < 2 ^ 64 = omega (arith, pad_len-le (length message)) in
    let second : be_value h1 ≡ 96 + length message + length p0 =
      be_value-write_u256 offset near ∙ omega (arith, pad0) in
    let args = layout_of (write_u256 64) h1 w0 w1 message attestation p0 p1 in
    let skipped : drop 4 (encode_bridge_in selector message attestation) ≡ args =
      drop-length-append 4 selector args four in
    let first_is =
      layout_first (write_u256 64) h1 w0 w1 message attestation p0 p1 refl refl refl refl size0
        size1 first second in
    let second_is =
      layout_second (write_u256 64) h1 w0 w1 message attestation p0 p1 refl refl refl refl size0
        size1 first second in
    let whole =
      length_of_whole (write_u256 64) h1 (write_bytes message) (write_bytes attestation) refl refl
        (length-write_bytes message) (length-write_bytes attestation) in
    (rw skipped first_is, (rw skipped second_is, rw skipped whole))
