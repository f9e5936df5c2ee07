-- ===== src/ReservePath/Moves.antt =====
-- The lifecycle of a reserve operation, and the queries of services/treasury/src/db/reserve_repo.rs as
-- moves of it.
use web_3_bank.Prelude.{
  ℕ, ◌≡◌, refl, true, false, Bool-cases, Option-cases, inl, inr, Option, none, some, List, [], ◌∷◌,
  Bytes, ◌===◌, ===→eq, ===_refl, All,
}
use web_3_bank.ReservePath.ReserveOps.{
  ReserveStatus, pending, submitted, relayed, completed, failed, ReserveRow, is_in_flight,
  reserve_op_exists, insert_reserve_op, update_op,
}
use web_3_bank.ReservePath.Table.{
  status_of, IsUnique, ===_sym, update-others, update-own, update-IsUnique,
}

-- A move of the lifecycle.
pub data Move : ReserveStatus → ReserveStatus → Type 0 where
  submits : Move pending submitted
  relays : Move submitted relayed
  fails : {a : ReserveStatus} → is_in_flight a ≡ true → Move a failed
  completes : {a : ReserveStatus} → Move a completed

pub data Moves (a : ReserveStatus) : ReserveStatus → Type 0 where
  stays : Moves a a
  then_ : {b c : ReserveStatus} → Moves a b → Move b c → Moves a c

pub Moves-trans : {a b c : ReserveStatus} → Moves a b → Moves b c → Moves a c
Moves-trans m stays = m
Moves-trans m (then_ l s) = then_ (Moves-trans m l) s

-- From an operation's status before to its status after; a row is never lost.
abbrev pub Follows : Option ReserveStatus → Option ReserveStatus → Type 0
Follows none o = Unit
Follows (some a) none = ⊥
Follows (some a) (some b) = Moves a b

Follows-refl : (o : Option ReserveStatus) → Follows o o
Follows-refl none = tt
Follows-refl (some a) = stays

Follows-trans : (o p q : Option ReserveStatus) → Follows o p → Follows p q → Follows o q
Follows-trans none p q f g = tt
Follows-trans (some a) none q f g = absurd f
Follows-trans (some a) (some b) none f g = g
Follows-trans (some a) (some b) (some c) f g = Moves-trans f g

-- From one table to the next every operation's status follows the lifecycle, and the operations stay
-- different.
pub record Advances (rows rows' : List ReserveRow) : Type 0 where
  pub unique : IsUnique rows'
  pub follows : (id : Bytes) → Follows (status_of id rows) (status_of id rows')

pub Advances-refl : (rows : List ReserveRow) → IsUnique rows → Advances rows rows
Advances-refl rows u = record { unique = u; follows = λ id. Follows-refl (status_of id rows) }

pub Advances-trans : (a b c : List ReserveRow) → Advances a b → Advances b c → Advances a c
Advances-trans a b c h k = record {
  unique = k.unique;
  follows = λ id.
      Follows-trans (status_of id a) (status_of id b) (status_of id c) (h.follows id)
        (k.follows id);
}

-- An update whose new status follows the old one.
pub update-Advances :
    (id : Bytes) (f : ReserveRow → ReserveRow) (g : ReserveStatus → ReserveStatus)
    (rows : List ReserveRow)
    → ((r : ReserveRow) → (f r).op_id ≡ r.op_id)
    → ((r : ReserveRow) → (f r).status ≡ g r.status)
    → ((a : ReserveStatus) → status_of id rows ≡ some a → Moves a (g a))
    → IsUnique rows
    → Advances rows (update_op id f rows)
update-Advances id f g rows same sets moves u = record {
  unique = update-IsUnique id f rows same u;
  follows = λ j. elim (Bool-cases (j === id)) [
    | inl own ↦ let is : j ≡ id = ===→eq j id own in rw is at_id
    | inr other ↦ rw (update-others id f rows same j other) (Follows-refl (status_of j rows))
  ];
}
  where
    at_id : Follows (status_of id rows) (status_of id (update_op id f rows))
    at_id = elim (Option-cases (status_of id rows)) [
      | inl absent ↦ rw absent tt
      | inr (a, is) ↦ rw (update-own id f g rows a same sets is, is) (moves a is)
    ]

pub exists-status :
    (id : Bytes) (rows : List ReserveRow)
    → reserve_op_exists id rows ≡ false
    → status_of id rows ≡ none
unfolding status_of reserve_op_exists
exists-status id [] h = refl
exists-status id (r ∷ rows) h = elim (Bool-cases (r.op_id === id)) [
  | inl own ↦ let no : true ≡ false = rw own at h in cc
  | inr other ↦
      let rest : reserve_op_exists id rows ≡ false = rw other at h in
      let other' : (id === r.op_id) ≡ false = rw (===_sym id r.op_id) other in
      rw other' (exists-status id rows rest)
]

exists-apart :
    (id : Bytes) (rows : List ReserveRow)
    → reserve_op_exists id rows ≡ false
    → All (λ t. (t.op_id === id) ≡ false) rows
unfolding reserve_op_exists
exists-apart id [] h = tt
exists-apart id (t ∷ rows) h = elim (Bool-cases (t.op_id === id)) [
  | inl own ↦ let no : true ≡ false = rw own at h in cc
  | inr other ↦
      let rest : reserve_op_exists id rows ≡ false = rw other at h in
      (other, exists-apart id rows rest)
]

-- The row of a new operation is pending; the other rows are as before.
pub insert-Advances :
    (id : Bytes) (source dest amount : ℕ) (bridge_type : Bytes) (now : ℕ) (rows : List ReserveRow)
    → reserve_op_exists id rows ≡ false
    → IsUnique rows
    → Advances rows (insert_reserve_op id source dest amount bridge_type now rows)
      × (status_of id (insert_reserve_op id source dest amount bridge_type now rows) ≡ some pending)
unfolding insert_reserve_op status_of
insert-Advances id source dest amount bridge_type now rows fresh u = rw fresh (
  record {
    unique = (exists-apart id rows fresh, u);
    follows = λ j. elim (Bool-cases (j === id)) [
      | inl own ↦ let is : j ≡ id = ===→eq j id own in rw (is, exists-status id rows fresh) tt
      | inr other ↦ rw other (Follows-refl (status_of j rows))
    ];
  },
  rw (===_refl id) refl,
)
