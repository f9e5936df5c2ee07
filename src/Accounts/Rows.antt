-- ===== src/Accounts/Rows.antt =====
-- The rows of a user's activity, services/treasury/src/db/account_event_repo.rs.
use web_3_bank.Prelude.{
  ℕ, ◌≡◌, refl, false, ◌||◌, Bool-cases, inl, inr, List, [], ◌∷◌, All, Bytes, arith,
}
use web_3_bank.AccountIndex.Events.{
  AccountEventRow, same_lower, credit, debit, credits, debits, comes_first, insert_first,
  activity_rows,
}

-- The rows of a user, as the query orders them, add up as those of the table do.
insert_first-sums :
    (chain : ℕ) (user : Bytes) (r : AccountEventRow) (rows : List AccountEventRow)
    → (credits chain user (insert_first r rows) ≡ credits chain user (r ∷ rows))
      × (debits chain user (insert_first r rows) ≡ debits chain user (r ∷ rows))
unfolding insert_first credits debits
insert_first-sums chain user r [] = (refl, refl)
insert_first-sums chain user r (t ∷ rows) = elim (Bool-cases (comes_first r t)) [
  | inl first ↦ rw first (refl, refl)
  | inr later ↦
      let (c, d) = insert_first-sums chain user r rows in
      (rw (later, c) (omega arith), rw (later, d) (omega arith))
]

insert_first-All :
    (P : AccountEventRow → Type 0) (r : AccountEventRow) (rows : List AccountEventRow)
    → P r
    → All P rows
    → All P (insert_first r rows)
unfolding insert_first
insert_first-All P r [] p h = (p, tt)
insert_first-All P r (t ∷ rows) p h = elim (Bool-cases (comes_first r t)) [
  | inl first ↦ rw first (p, h)
  | inr later ↦ rw later (h.0, insert_first-All P r rows p h.1)
]

-- A row that names the user neither as sender nor as receiver counts for nothing.
stranger :
    (user : Bytes) (r : AccountEventRow)
    → same_lower user r.address_from || same_lower user r.address_to ≡ false
    → (credit user r ≡ 0) × (debit user r ≡ 0)
unfolding credit debit
stranger user r h = (ground arith, ground arith)

pub activity_rows-sums :
    (chain : ℕ) (user : Bytes) (rows : List AccountEventRow)
    → (credits chain user (activity_rows user rows) ≡ credits chain user rows)
      × (debits chain user (activity_rows user rows) ≡ debits chain user rows)
unfolding activity_rows credits debits
activity_rows-sums chain user [] = (refl, refl)
activity_rows-sums chain user (r ∷ rows) =
    let (c, d) = activity_rows-sums chain user rows in
    elim (Bool-cases (same_lower user r.address_from || same_lower user r.address_to)) [
      | inl named ↦
          let (i, o) = insert_first-sums chain user r (activity_rows user rows) in
          (rw (named, i, credits, c) refl, rw (named, o, debits, d) refl)
      | inr other ↦
          let (i, o) = stranger user r other in
          (rw (other, i, c) (ground arith), rw (other, o, d) (ground arith))
    ]

pub activity_rows-All :
    (P : AccountEventRow → Type 0) (user : Bytes) (rows : List AccountEventRow)
    → All P rows
    → All P (activity_rows user rows)
unfolding activity_rows
activity_rows-All P user [] h = tt
activity_rows-All P user (r ∷ rows) h =
    let rest = activity_rows-All P user rows h.1 in
    elim (Bool-cases (same_lower user r.address_from || same_lower user r.address_to)) [
      | inl named ↦ rw named (insert_first-All P r (activity_rows user rows) h.0 rest)
      | inr other ↦ rw other rest
    ]
