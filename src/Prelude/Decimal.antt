-- ===== src/Prelude/Decimal.antt =====
-- The decimal text of a number, and the search for a text in another.
use Prim.Native.Nat.{ℕ, zero, suc, ◌+◌, ◌/◌, ◌%◌}
use mathlib.Core.Bool.{Bool, true, false, ◌&&◌, ◌||◌}
use mathlib.Core.List.{[], ◌∷◌}
use web_3_bank.Prelude.Tests.{◌==◌, ltb, if◌then◌else◌}
use web_3_bank.Prelude.Text.{Bytes}

-- `{}` of a number with at most as many digits as the first argument says.
unfoldable pub decimal_digits : ℕ → ℕ → Bytes → Bytes
decimal_digits zero n tail = tail
decimal_digits (suc f) n tail =
    let shorter = decimal_digits f (n / 10) ((48 + n % 10) ∷ tail) in
    if ltb n 10 then (48 + n) ∷ tail else shorter

unfoldable pub starts_with : Bytes → Bytes → Bool
starts_with [] text = true
starts_with (c ∷ s) [] = false
starts_with (c ∷ s) (d ∷ text) = (c == d) && starts_with s text

-- `text.contains(part)`
unfoldable pub contains_text : Bytes → Bytes → Bool
unfolding starts_with
contains_text part [] = starts_with part []
contains_text part (c ∷ text) = starts_with part (c ∷ text) || contains_text part text
