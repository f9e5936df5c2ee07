-- ===== src/ReservePath/TimeOut.antt =====
-- The stuck rows of `run_watcher_cycle`, services/treasury/src/reserve_path.rs.
use web_3_bank.Prelude.{
  ℕ, zero, suc, ◌≤◌, ◌≡◌, refl, ◌∙◌, Bool, true, false, Bool-cases, inl, inr, some, List, [], ◌∷◌,
  leb, Bytes, length, take, ◌===◌, All, arith,
}
use web_3_bank.ReservePath.ReserveOps.{
  failed, ReserveRow, is_in_flight, is_stuck, list_stuck, list_limit, rows_where, insert_by_update,
  order_by_update, update_failed,
}
use web_3_bank.ReservePath.Calls.{Env, State, later, write}
use web_3_bank.ReservePath.Watcher.{fail_rows, time_out_stuck}
use web_3_bank.ReservePath.Table.{status_of, IsUnique, ===_sym, update-own, update-others}
use web_3_bank.ReservePath.Listing.{HasStatus, Listed, list-Listed}
use web_3_bank.ReservePath.Turns.{fail-Turns, still_listed}
use web_3_bank.ReservePath.Lifecycle.{stuck_flies}

abbrev IsFailed : List ReserveRow → ReserveRow → Type 0
IsFailed rows r = status_of r.op_id rows ≡ some failed

module _ (env : Env) (up : (t : ℕ) → env.database_up t ≡ true) where
  fail_rows-others :
      (j : Bytes) (l : List ReserveRow) (s : State)
      → All (λ t. (t.op_id === j) ≡ false) l
      → status_of j (fail_rows env l s).reserve_ops ≡ status_of j s.reserve_ops
  unfolding fail_rows
  fail_rows-others j [] s apart = refl
  fail_rows-others j (row ∷ l) s apart =
      let now = env.database_now s.net.tick in
      let ne : (j === row.op_id) ≡ false = rw (===_sym j row.op_id) apart.0 in
      let one : status_of j (write env (update_failed row.op_id) s).reserve_ops
          ≡ status_of j s.reserve_ops =
        rw (up s.net.tick) (
          update-others row.op_id (λ r. record r { status = failed; updated_at = now })
            s.reserve_ops (λ r. refl) j ne) in
      fail_rows-others j l (write env (update_failed row.op_id) s) apart.1 ∙ one

  fail_rows-IsFailed :
      (l : List ReserveRow) (s : State)
      → Listed is_in_flight s.reserve_ops l
      → IsUnique s.reserve_ops
      → All (IsFailed (fail_rows env l s).reserve_ops) l
  unfolding fail_rows
  fail_rows-IsFailed [] s h u = tt
  fail_rows-IsFailed (row ∷ l) s h u =
      let now = env.database_now s.net.tick in
      let (a, (is, flying)) = h.statuses.0 in
      let s' = write env (update_failed row.op_id) s in
      let f : ReserveRow → ReserveRow = λ r. record r { status = failed; updated_at = now } in
      let own : status_of row.op_id s'.reserve_ops ≡ some failed =
        rw (up s.net.tick)
          (update-own row.op_id f (λ _. failed) s.reserve_ops a (λ r. refl) (λ r. refl) is) in
      let t = fail-Turns row.op_id now s.reserve_ops a is flying u in
      let unique : IsUnique s'.reserve_ops = rw (up s.net.tick) t.advances.unique in
      let rest : All (HasStatus is_in_flight s'.reserve_ops) l = rw (up s.net.tick) (
        still_listed is_in_flight row.op_id s.reserve_ops
          (update_failed row.op_id now s.reserve_ops) l t h.different.0 h.statuses.1) in
      (
        fail_rows-others row.op_id l s' h.different.0 ∙ own,
        fail_rows-IsFailed l s' (record { different = h.different.1; statuses = rest }) unique,
      )

insert-All-back :
    (P : ReserveRow → Type 0) (r : ReserveRow) (rows : List ReserveRow)
    → All P (insert_by_update r rows)
    → P r × All P rows
insert-All-back P r [] h = h
insert-All-back P r (t ∷ rows) h = elim (Bool-cases (leb r.updated_at t.updated_at)) [
  | inl first ↦ rw first at h
  | inr after ↦
      let k : P t × All P (insert_by_update r rows) = rw after at h in
      let (p, rest) = insert-All-back P r rows k.1 in (p, (k.0, rest))
]

order-All-back :
    (P : ReserveRow → Type 0) (rows : List ReserveRow) → All P (order_by_update rows) → All P rows
order-All-back P [] h = tt
order-All-back P (r ∷ rows) h =
    let (p, rest) = insert-All-back P r (order_by_update rows) h in (p, order-All-back P rows rest)

where-All-back :
    (P : ReserveRow → Type 0) (keep : ReserveRow → Bool) (rows : List ReserveRow)
    → All P (rows_where keep rows)
    → All (λ r. keep r ≡ true → P r) rows
where-All-back P keep [] h = tt
where-All-back P keep (r ∷ rows) h = elim (Bool-cases (keep r)) [
  | inl kept ↦
      let k : P r × All P (rows_where keep rows) = rw kept at h in
      ((λ _. k.0), where-All-back P keep rows k.1)
  | inr dropped ↦
      let k : All P (rows_where keep rows) = rw dropped at h in
      ((λ e. let wrong : false ≡ true = rw dropped at e in cc), where-All-back P keep rows k)
]

length-insert :
    (r : ReserveRow) (rows : List ReserveRow) → length (insert_by_update r rows) ≡ suc (length rows)
length-insert r [] = refl
length-insert r (t ∷ rows) = ground (arith, length-insert r rows)

length-order : (rows : List ReserveRow) → length (order_by_update rows) ≡ length rows
length-order [] = refl
length-order (r ∷ rows) = omega (arith, length-insert r (order_by_update rows), length-order rows)

take-All-back :
    (P : ReserveRow → Type 0) (n : ℕ) (rows : List ReserveRow)
    → length rows ≤ n
    → All P (take n rows)
    → All P rows
take-All-back P n [] few h = tt
take-All-back P zero (r ∷ rows) few h = absurd (omega arith)
take-All-back P (suc n) (r ∷ rows) few h = (h.0, take-All-back P n rows (omega arith) h.1)

-- If the database answers every query and at most as many rows are stuck as one query lists, every
-- row that is stuck when they are listed has failed afterwards.
pub time_out_stuck-IsFailed :
    (env : Env) (secs : ℕ) (s : State)
    → ((t : ℕ) → env.database_up t ≡ true)
    → IsUnique s.reserve_ops
    → length (rows_where (is_stuck (env.database_now s.net.tick) secs) s.reserve_ops) ≤ list_limit
    → All
        (λ r.
          is_stuck (env.database_now s.net.tick) secs r ≡ true
          → status_of r.op_id (time_out_stuck env secs s).reserve_ops ≡ some failed)
        s.reserve_ops
unfolding time_out_stuck list_stuck
time_out_stuck-IsFailed env secs s up u few =
    let now = env.database_now s.net.tick in
    let stuck = rows_where (is_stuck now secs) s.reserve_ops in
    let done =
      fail_rows-IsFailed env up (list_stuck now secs s.reserve_ops) (later s)
        (list-Listed (is_stuck now secs) is_in_flight s.reserve_ops (stuck_flies env now secs) u)
        u in
    let P = IsFailed (time_out_stuck env secs s).reserve_ops in
    let listed : All P (take list_limit (order_by_update stuck)) = rw (up s.net.tick) done in
    let ordered =
      take-All-back P list_limit (order_by_update stuck) (omega (arith, length-order stuck, few))
        listed in
    where-All-back P (is_stuck now secs) s.reserve_ops (order-All-back P stuck ordered)
