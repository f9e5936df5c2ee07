-- ===== src/Prelude/Dict.antt =====
-- A `HashMap` keyed by numbers, as an association list; its iteration order is the list's.
use Prim.Native.Nat.{ℕ}
use mathlib.Core.Path.{◌≡◌, refl}
use mathlib.Core.Bool.{Bool, false, ◌||◌}
use mathlib.Core.Option.{Option, none, some}
use mathlib.Core.List.{List, [], ◌∷◌}
use native.Mathlib.Omega.{arith}
use web_3_bank.Prelude.Tests.{◌==◌, if◌then◌else◌}

abbrev pub Dict {ℓ} : Type ℓ → Type ℓ
Dict V = List (ℕ × V)

module _ {ℓ} {V : Type ℓ} where
  abbrev pub get : ℕ → Dict V → Option V
  get k [] = none
  get k ((j, v) ∷ d) = if k == j then some v else get k d

  abbrev pub insert : ℕ → V → Dict V → Dict V
  insert k v [] = (k, v) ∷ []
  insert k v (e ∷ d) = if k == e.0 then (k, v) ∷ d else e ∷ insert k v d

  abbrev pub remove : ℕ → Dict V → Dict V
  remove k [] = []
  remove k (e ∷ d) = if k == e.0 then remove k d else e ∷ remove k d

  pub get-insert :
      (j k : ℕ) (v : V) (d : Dict V) → get j (insert k v d) ≡ (if j == k then some v else get j d)
  get-insert j k v [] = refl
  get-insert j k v (e ∷ d) = ground (arith, get-insert j k v d)

  pub get-remove : (j k : ℕ) (d : Dict V) → get j (remove k d) ≡ (if j == k then none else get j d)
  get-remove j k [] = ground arith
  get-remove j k (e ∷ d) = ground (arith, get-remove j k d)

-- A `HashSet<u64>`.
abbrev pub contains : ℕ → List ℕ → Bool
contains k [] = false
contains k (j ∷ s) = k == j || contains k s

abbrev pub without : ℕ → List ℕ → List ℕ
without k [] = []
without k (j ∷ s) = let rest = without k s in if k == j then rest else j ∷ rest

pub contains-without :
    (j k : ℕ) (s : List ℕ) → contains j (without k s) ≡ (if j == k then false else contains j s)
contains-without j k [] = ground arith
contains-without j k (i ∷ s) = ground (arith, contains-without j k s)
