-- ===== src/ReservePath/Table.antt =====
-- The statuses of the rows of treasury.reserve_ops, and what the queries of
-- services/treasury/src/db/reserve_repo.rs do to them.
use web_3_bank.Prelude.{
  ◌≡◌, refl, sym, true, false, Bool-cases, inl, inr, Option, none, some, List, [], ◌∷◌,
  if◌then◌else◌, Bytes, ◌===◌, ===→eq, All, All-map,
}
use web_3_bank.ReservePath.ReserveOps.{ReserveStatus, ReserveRow, update_op}

-- The status of the row of an operation.
unfoldable pub status_of : Bytes → List ReserveRow → Option ReserveStatus
status_of id [] = none
status_of id (r ∷ rows) = if id === r.op_id then some r.status else status_of id rows

abbrev pub Differs : ReserveRow → ReserveRow → Type 0
Differs r t = (t.op_id === r.op_id) ≡ false

-- `op_id TEXT UNIQUE NOT NULL`
abbrev pub IsUnique : List ReserveRow → Type 0
IsUnique [] = Unit
IsUnique (r ∷ rows) = All (Differs r) rows × IsUnique rows

pub ===_sym : (a b : Bytes) → (a === b) ≡ (b === a)
===_sym a b = elim (Bool-cases (a === b)) [
  | inl same ↦ let e : a ≡ b = ===→eq a b same in rw e refl
  | inr apart ↦ elim (Bool-cases (b === a)) [
    | inl same ↦ let e : a ≡ b = sym (===→eq b a same) in rw e refl
    | inr other ↦ rw (apart, other) refl
  ]
]

-- An update leaves the other rows' statuses as they are.
pub update-others :
    (id : Bytes) (f : ReserveRow → ReserveRow) (rows : List ReserveRow)
    → ((r : ReserveRow) → (f r).op_id ≡ r.op_id)
    → (j : Bytes) → (j === id) ≡ false
    → status_of j (update_op id f rows) ≡ status_of j rows
unfolding status_of
update-others id f [] same j ne = refl
update-others id f (r ∷ rows) same j ne = elim (Bool-cases (r.op_id === id)) [
  | inl own ↦
      let is : r.op_id ≡ id = ===→eq r.op_id id own in
      rw (own, same r, is, ne) (update-others id f rows same j ne)
  | inr other ↦ rw (other, update-others id f rows same j ne) refl
]

-- An update that sets the status sets it in the row it is for.
pub update-own :
    (id : Bytes) (f : ReserveRow → ReserveRow) (g : ReserveStatus → ReserveStatus)
    (rows : List ReserveRow) (a : ReserveStatus)
    → ((r : ReserveRow) → (f r).op_id ≡ r.op_id)
    → ((r : ReserveRow) → (f r).status ≡ g r.status)
    → status_of id rows ≡ some a
    → status_of id (update_op id f rows) ≡ some (g a)
unfolding status_of
update-own id f g [] a same sets h = cc
update-own id f g (r ∷ rows) a same sets h = elim (Bool-cases (id === r.op_id)) [
  | inl own ↦
      let here : some r.status ≡ some a = rw own at h in
      let own' : (r.op_id === id) ≡ true = rw (===_sym r.op_id id) own in
      rw (own', same r, own, sets r) cc
  | inr other ↦
      let rest : status_of id rows ≡ some a = rw other at h in
      let other' : (r.op_id === id) ≡ false = rw (===_sym r.op_id id) other in
      rw (other', other) (update-own id f g rows a same sets rest)
]

-- No row of the operation, before and after.
pub update-absent :
    (id : Bytes) (f : ReserveRow → ReserveRow) (rows : List ReserveRow)
    → status_of id rows ≡ none
    → status_of id (update_op id f rows) ≡ none
unfolding status_of
update-absent id f [] h = refl
update-absent id f (r ∷ rows) h = elim (Bool-cases (id === r.op_id)) [
  | inl own ↦ let no : some r.status ≡ none = rw own at h in cc
  | inr other ↦
      let rest : status_of id rows ≡ none = rw other at h in
      let other' : (r.op_id === id) ≡ false = rw (===_sym r.op_id id) other in
      rw (other', other) (update-absent id f rows rest)
]

update-Differs :
    (id : Bytes) (f : ReserveRow → ReserveRow) (rows : List ReserveRow)
    → ((r : ReserveRow) → (f r).op_id ≡ r.op_id)
    → (r : ReserveRow) → All (Differs r) rows
    → All (Differs r) (update_op id f rows)
update-Differs id f [] same r h = tt
update-Differs id f (t ∷ rows) same r h = elim (Bool-cases (t.op_id === id)) [
  | inl own ↦ rw own (rw (same t) h.0, update-Differs id f rows same r h.1)
  | inr other ↦ rw other (h.0, update-Differs id f rows same r h.1)
]

pub update-IsUnique :
    (id : Bytes) (f : ReserveRow → ReserveRow) (rows : List ReserveRow)
    → ((r : ReserveRow) → (f r).op_id ≡ r.op_id)
    → IsUnique rows
    → IsUnique (update_op id f rows)
update-IsUnique id f [] same u = tt
update-IsUnique id f (r ∷ rows) same u = elim (Bool-cases (r.op_id === id)) [
  | inl own ↦ rw own (
    All-map (Differs r) (Differs (f r)) (λ t h. rw (same r) h) (update_op id f rows)
        (update-Differs id f rows same r u.0),
    update-IsUnique id f rows same u.1,
  )
  | inr other ↦ rw other (update-Differs id f rows same r u.0, update-IsUnique id f rows same u.1)
]
