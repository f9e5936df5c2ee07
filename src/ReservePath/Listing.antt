-- ===== src/ReservePath/Listing.antt =====
-- The queries of services/treasury/src/db/reserve_repo.rs that list rows.
use web_3_bank.Prelude.{
  ℕ, zero, suc, ◌≡◌, refl, Bool, true, false, Bool-cases, inl, inr, some, List, [], ◌∷◌, leb, take,
  ◌===◌, ===_refl, All,
}
use web_3_bank.ReservePath.ReserveOps.{
  ReserveStatus, ReserveRow, rows_where, insert_by_update, order_by_update, list_limit,
}
use web_3_bank.ReservePath.Table.{status_of, Differs, IsUnique, ===_sym}

abbrev pub HasStatus : (ReserveStatus → Bool) → List ReserveRow → ReserveRow → Type 0
HasStatus test rows t = (a : ReserveStatus) × ((status_of t.op_id rows ≡ some a) × (test a ≡ true))

-- The queries that list rows: the rows are different, and each has the status that it is listed for.
pub record Listed (test : ReserveStatus → Bool) (rows l : List ReserveRow) : Type 0 where
  pub different : IsUnique l
  pub statuses : All (HasStatus test rows) l

where-All :
    (P : ReserveRow → Type 0) (keep : ReserveRow → Bool) (rows : List ReserveRow)
    → All P rows
    → All P (rows_where keep rows)
where-All P keep [] h = tt
where-All P keep (r ∷ rows) h = elim (Bool-cases (keep r)) [
  | inl kept ↦ rw kept (h.0, where-All P keep rows h.1)
  | inr dropped ↦ rw dropped (where-All P keep rows h.1)
]

where-IsUnique :
    (keep : ReserveRow → Bool) (rows : List ReserveRow)
    → IsUnique rows
    → IsUnique (rows_where keep rows)
where-IsUnique keep [] u = tt
where-IsUnique keep (r ∷ rows) u = elim (Bool-cases (keep r)) [
  | inl kept ↦ rw kept (where-All (Differs r) keep rows u.0, where-IsUnique keep rows u.1)
  | inr dropped ↦ rw dropped (where-IsUnique keep rows u.1)
]

insert-All :
    (P : ReserveRow → Type 0) (r : ReserveRow) (rows : List ReserveRow)
    → P r
    → All P rows
    → All P (insert_by_update r rows)
insert-All P r [] p h = (p, tt)
insert-All P r (t ∷ rows) p h = elim (Bool-cases (leb r.updated_at t.updated_at)) [
  | inl first ↦ rw first (p, h)
  | inr later ↦ rw later (h.0, insert-All P r rows p h.1)
]

insert-IsUnique :
    (r : ReserveRow) (rows : List ReserveRow)
    → All (Differs r) rows
    → IsUnique rows
    → IsUnique (insert_by_update r rows)
insert-IsUnique r [] d u = (tt, tt)
insert-IsUnique r (t ∷ rows) d u = elim (Bool-cases (leb r.updated_at t.updated_at)) [
  | inl first ↦ rw first (d, u)
  | inr later ↦
      let apart : (r.op_id === t.op_id) ≡ false = rw (===_sym r.op_id t.op_id) d.0 in
      rw later (insert-All (Differs t) r rows apart u.0, insert-IsUnique r rows d.1 u.1)
]

pub order-All :
    (P : ReserveRow → Type 0) (rows : List ReserveRow) → All P rows → All P (order_by_update rows)
order-All P [] h = tt
order-All P (r ∷ rows) h = insert-All P r (order_by_update rows) h.0 (order-All P rows h.1)

order-IsUnique : (rows : List ReserveRow) → IsUnique rows → IsUnique (order_by_update rows)
order-IsUnique [] u = tt
order-IsUnique (r ∷ rows) u =
    insert-IsUnique r (order_by_update rows) (order-All (Differs r) rows u.0)
      (order-IsUnique rows u.1)

pub take-All :
    (P : ReserveRow → Type 0) (n : ℕ) (rows : List ReserveRow) → All P rows → All P (take n rows)
take-All P zero rows h = tt
take-All P (suc n) [] h = tt
take-All P (suc n) (r ∷ rows) h = (h.0, take-All P n rows h.1)

take-IsUnique : (n : ℕ) (rows : List ReserveRow) → IsUnique rows → IsUnique (take n rows)
take-IsUnique zero rows u = tt
take-IsUnique (suc n) [] u = tt
take-IsUnique (suc n) (r ∷ rows) u = (take-All (Differs r) n rows u.0, take-IsUnique n rows u.1)

where-HasStatus :
    (keep : ReserveRow → Bool) (test : ReserveStatus → Bool) (rows : List ReserveRow)
    → ((r : ReserveRow) → keep r ≡ true → test r.status ≡ true)
    → IsUnique rows
    → All (HasStatus test rows) (rows_where keep rows)
unfolding status_of
where-HasStatus keep test [] good u = tt
where-HasStatus keep test (r ∷ rows) good u =
    let below : All (HasStatus test (r ∷ rows)) (rows_where keep rows) =
      lifted (rows_where keep rows) (where-All (Differs r) keep rows u.0)
        (where-HasStatus keep test rows good u.1) in
    elim (Bool-cases (keep r)) [
      | inl kept ↦ rw kept ((r.status, (rw (===_refl r.op_id) refl, good r kept)), below)
      | inr dropped ↦ rw dropped below
    ]
  where
    lifted :
        (l : List ReserveRow)
        → All (Differs r) l
        → All (HasStatus test rows) l
        → All (HasStatus test (r ∷ rows)) l
    lifted [] d h = tt
    lifted (t ∷ l) d h = ((h.0.0, (rw d.0 h.0.1.0, h.0.1.1)), lifted l d.1 h.1)

pub list-Listed :
    (keep : ReserveRow → Bool) (test : ReserveStatus → Bool) (rows : List ReserveRow)
    → ((r : ReserveRow) → keep r ≡ true → test r.status ≡ true)
    → IsUnique rows
    → Listed test rows (take list_limit (order_by_update (rows_where keep rows)))
list-Listed keep test rows good u = record {
  different =
      take-IsUnique list_limit (order_by_update (rows_where keep rows))
        (order-IsUnique (rows_where keep rows) (where-IsUnique keep rows u));
  statuses = take-All (HasStatus test rows) list_limit (order_by_update (rows_where keep rows)) (
      order-All (HasStatus test rows) (rows_where keep rows)
        (where-HasStatus keep test rows good u));
}
