-- ===== src/ReservePath/Turns.antt =====
-- The queries of services/treasury/src/reserve_path.rs on the row of one operation.
use web_3_bank.Prelude.{
  ℕ, ◌≡◌, refl, Bool, true, false, Bool-cases, inl, inr, some, List, [], ◌∷◌, Bytes, ◌===◌, All,
}
use web_3_bank.ReservePath.ReserveOps.{
  ReserveStatus, failed, ReserveRow, is_in_flight, update_op, update_failed,
}
use web_3_bank.ReservePath.Calls.{Env, State, write}
use web_3_bank.ReservePath.Table.{status_of, IsUnique, update-others}
use web_3_bank.ReservePath.Listing.{HasStatus}
use web_3_bank.ReservePath.Moves.{
  fails, Moves, stays, then_, Advances, Advances-refl, Advances-trans, update-Advances,
}

-- The table moves along the lifecycle, and only the row of one operation changes its status.
pub record Turns (id : Bytes) (rows rows' : List ReserveRow) : Type 0 where
  pub advances : Advances rows rows'
  pub others : (j : Bytes) → (j === id) ≡ false → status_of j rows' ≡ status_of j rows

pub Turns-refl : (id : Bytes) (rows : List ReserveRow) → IsUnique rows → Turns id rows rows
Turns-refl id rows u = record { advances = Advances-refl rows u; others = λ j ne. refl }

pub Turns-trans :
    (id : Bytes) (a b c : List ReserveRow) → Turns id a b → Turns id b c → Turns id a c
Turns-trans id a b c h k = record {
  advances = Advances-trans a b c h.advances k.advances;
  others = λ j ne. rw (k.others j ne) (h.others j ne);
}

-- An update of a row, at a known status.
pub update-Turns :
    (id : Bytes) (f : ReserveRow → ReserveRow) (g : ReserveStatus → ReserveStatus)
    (rows : List ReserveRow)
    → ((r : ReserveRow) → (f r).op_id ≡ r.op_id)
    → ((r : ReserveRow) → (f r).status ≡ g r.status)
    → ((a : ReserveStatus) → status_of id rows ≡ some a → Moves a (g a))
    → IsUnique rows
    → Turns id rows (update_op id f rows)
update-Turns id f g rows same sets moves u = record {
  advances = update-Advances id f g rows same sets moves u;
  others = update-others id f rows same;
}

pub fail-Turns :
    (id : Bytes) (now : ℕ) (rows : List ReserveRow) (a : ReserveStatus)
    → status_of id rows ≡ some a
    → is_in_flight a ≡ true
    → IsUnique rows
    → Turns id rows (update_failed id now rows)
fail-Turns id now rows a is flying u =
    update-Turns id (λ r. record r { status = failed; updated_at = now }) (λ _. failed) rows
      (λ r. refl) (λ r. refl)
      (λ b was. let same : a ≡ b = cc in then_ stays (fails (rw⁻¹ same flying))) u

-- A query that moves a row, whether or not the database answers.
pub write-Turns :
    (env : Env) (id : Bytes) (f : ℕ → List ReserveRow → List ReserveRow) (s : State)
    → IsUnique s.reserve_ops
    → Turns id s.reserve_ops (f (env.database_now s.net.tick) s.reserve_ops)
    → Turns id s.reserve_ops (write env f s).reserve_ops
write-Turns env id f s u t = elim (Bool-cases (env.database_up s.net.tick)) [
  | inl up ↦ rw up t
  | inr down ↦ rw down (Turns-refl id s.reserve_ops u)
]

-- The rows that are still to come have the statuses that they were listed for.
pub still_listed :
    (test : ReserveStatus → Bool) (id : Bytes) (rows rows' l : List ReserveRow)
    → Turns id rows rows'
    → All (λ t. (t.op_id === id) ≡ false) l
    → All (HasStatus test rows) l
    → All (HasStatus test rows') l
still_listed test id rows rows' [] t d h = tt
still_listed test id rows rows' (r ∷ l) t d h = (
  (h.0.0, (rw (t.others r.op_id d.0) h.0.1.0, h.0.1.1)),
  still_listed test id rows rows' l t d.1 h.1,
)
