-- ===== src/ReservePath/Justified.antt =====
-- The completed rows of services/treasury/src/reserve_path.rs.
use web_3_bank.Prelude.{
  ℕ, ◌≡◌, ◌≢◌, refl, true, false, ◌&&◌, ◌==◌, Bool-cases, inl, inr, Option, none, some, List, [],
  ◌∷◌, Bytes, ◌===◌, ===→eq, ===_refl, All, ==_iff,
}
use mathlib.Core.Path.{subst}
use web_3_bank.ReservePath.ReserveOps.{
  completed, failed, ReserveRow, has_message, find_by_dest_and_message_id, update_op, update_failed,
  update_completed,
}
use web_3_bank.ReservePath.Calls.{Env}
use web_3_bank.ReservePath.Table.{Differs, IsUnique, ===_sym}
use web_3_bank.ReservePath.WatchCases.{Sighting}

-- A completed row has a message, and its completion was seen on its destination.
abbrev pub IsJustified : Env → ReserveRow → Type 0
IsJustified env r =
    r.status ≡ completed
    → (message_id : Bytes) × ((r.bridge_message_id ≡ some message_id)
        × Sighting env r.dest_chain_id message_id)

module _ (env : Env) where
  pub update_keeps :
      (id : Bytes) (f : ReserveRow → ReserveRow) (rows : List ReserveRow)
      → ((r : ReserveRow) → IsJustified env r → IsJustified env (f r))
      → All (IsJustified env) rows
      → All (IsJustified env) (update_op id f rows)
  update_keeps id f [] keeps j = tt
  update_keeps id f (r ∷ rows) keeps j = elim (Bool-cases (r.op_id === id)) [
    | inl own ↦ rw own (keeps r j.0, update_keeps id f rows keeps j.1)
    | inr other ↦ rw other (j.0, update_keeps id f rows keeps j.1)
  ]

  -- A row that is not completed needs no sighting.
  open_row : (r : ReserveRow) → r.status ≢ completed → IsJustified env r
  open_row r ne e = absurd (ne e)

  pub fail_keeps :
      (id : Bytes) (now : ℕ) (rows : List ReserveRow)
      → All (IsJustified env) rows
      → All (IsJustified env) (update_failed id now rows)
  fail_keeps id now rows =
      update_keeps id (λ r. record r { status = failed; updated_at = now }) rows (λ r j e. cc)

  -- What is true of all rows is true of the one found.
  found-All :
      (P : ReserveRow → Type 0) (dest : ℕ) (m : Bytes) (row : ReserveRow) (rows : List ReserveRow)
      → find_by_dest_and_message_id dest m rows ≡ some row
      → All P rows
      → P row
  unfolding find_by_dest_and_message_id
  found-All P dest m row [] is h = cc
  found-All P dest m row (r ∷ rows) is h =
      elim (Bool-cases ((r.dest_chain_id == dest) && has_message m r.bridge_message_id)) [
        | inl hit ↦
            let first : some r ≡ some row = rw hit at is in let e : r ≡ row = cc in rw⁻¹ e h.0
        | inr miss ↦
            let rest : find_by_dest_and_message_id dest m rows ≡ some row = rw miss at is in
            found-All P dest m row rows rest h.1
      ]

  -- An update leaves a table without the operation as it is.
  apart_keeps :
      (id : Bytes) (f : ReserveRow → ReserveRow) (rows : List ReserveRow)
      → All (λ t. (t.op_id === id) ≡ false) rows
      → All (IsJustified env) rows
      → All (IsJustified env) (update_op id f rows)
  apart_keeps id f [] apart j = tt
  apart_keeps id f (r ∷ rows) apart j = rw apart.0 (j.0, apart_keeps id f rows apart.1 j.1)

  hit_names :
      (dest : ℕ) (m : Bytes) (d : ℕ) (o : Option Bytes)
      → ((d == dest) && has_message m o) ≡ true
      → (d ≡ dest) × (o ≡ some m)
  hit_names dest m d none h = elim (Bool-cases (d == dest)) [
    | inl same ↦ let wrong : false ≡ true = rw same at h in cc
    | inr other ↦ let wrong : false ≡ true = rw other at h in cc
  ]
  hit_names dest m d (some n) h = elim (Bool-cases (d == dest)) [
    | inl same ↦
        let named : (n === m) ≡ true = rw same at h in
        let e : n ≡ m = ===→eq n m named in ((==_iff d dest).0 same, rw e refl)
    | inr other ↦ let wrong : false ≡ true = rw other at h in cc
  ]

  pub complete_keeps :
      (dest : ℕ) (m : Bytes) (row : ReserveRow) (now : ℕ) (rows : List ReserveRow)
      → Sighting env dest m
      → find_by_dest_and_message_id dest m rows ≡ some row
      → IsUnique rows
      → All (IsJustified env) rows
      → All (IsJustified env) (update_completed row.op_id now rows)
  unfolding find_by_dest_and_message_id
  complete_keeps dest m row now [] seen is u j = tt
  complete_keeps dest m row now (r ∷ rows) seen is u j =
      elim (Bool-cases ((r.dest_chain_id == dest) && has_message m r.bridge_message_id)) [
        | inl hit ↦
            let first : some r ≡ some row = rw hit at is in
            let e : r.op_id ≡ row.op_id = cc in
            let named = hit_names dest m r.dest_chain_id r.bridge_message_id hit in
            let own : (r.op_id === row.op_id) ≡ true = rw e (===_refl row.op_id) in
            let apart : All (λ t. (t.op_id === row.op_id) ≡ false) rows =
              subst (λ i. All (λ t. (t.op_id === i) ≡ false) rows) e u.0 in
            rw own (
              λ done. (m, (named.1, rw named.0 seen)),
              apart_keeps row.op_id (λ t. record t { status = completed; updated_at = now }) rows
                  apart j.1,
            )
        | inr miss ↦
            let rest : find_by_dest_and_message_id dest m rows ≡ some row = rw miss at is in
            let apart : (row.op_id === r.op_id) ≡ false =
              found-All (Differs r) dest m row rows rest u.0 in
            let apart' : (r.op_id === row.op_id) ≡ false = rw (===_sym r.op_id row.op_id) apart in
            rw apart' (j.0, complete_keeps dest m row now rows seen rest u.1 j.1)
      ]
