-- ===== src/Prelude/Text.antt =====
-- Rust strings and byte vectors are lists of bytes.
use Prim.Native.Nat.{ℕ}
use Prim.Native.Char.{code}
use Prim.Native.String.{String}
use mathlib.Core.Path.{◌≡◌, refl}
use mathlib.Core.Logic.{◌↔◌}
use mathlib.Core.Bool.{Bool, true, false, ◌&&◌}
use mathlib.Core.List.{List, [], ◌∷◌}
use native.Mathlib.Omega.{arith}
use web_3_bank.Prelude.Tests.{◌==◌}

-- `String`, `&str`, `Vec<u8>`, `B256`, `Address`: the bytes.
abbrev pub Bytes : Type 0
Bytes = List ℕ

-- The bytes of an ASCII literal.
abbrev pub codes : String → Bytes
codes String.[] = []
codes (String.◌∷◌ c s) = code c ∷ codes s

-- `==` on byte strings.
infix 50 ◌===◌
unfoldable pub ◌===◌ : Bytes → Bytes → Bool
[] === [] = true
[] === (b ∷ bs) = false
(a ∷ s) === [] = false
(a ∷ s) === (b ∷ bs) = (a == b) && (s === bs)

pub ===_refl : (a : Bytes) → (a === a) ≡ true
unfolding ◌===◌
===_refl [] = refl
===_refl (a ∷ s) = ground (arith, ===_refl s)

pub ===→eq : (a b : Bytes) → (a === b) ≡ true → a ≡ b
unfolding ◌===◌
===→eq [] [] h = refl
===→eq [] (b ∷ bs) h = cc
===→eq (a ∷ s) [] h = cc
===→eq (a ∷ s) (b ∷ bs) h = ground (arith, ===→eq s bs)

pub ===_iff : (a b : Bytes) → ((a === b) ≡ true) ↔ (a ≡ b)
===_iff a b = (===→eq a b, λ e. rw e (===_refl b))
