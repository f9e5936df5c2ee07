-- ===== src/Accounts/Statements.antt =====
-- The activity of a user against the indexed balance: services/treasury/src/account_activity.rs and
-- db/account_event_repo.rs.
use web_3_bank.Prelude.{
  ℕ, zero, suc, ◌+◌, ◌≤◌, ◌≡◌, refl, sym, ap, ◌∙◌, true, Option, none, some, List, [], ◌∷◌, ◌==◌,
  min, max, take, length, All, Bytes, if◌then◌else◌, arith,
}
use web_3_bank.AccountIndex.Events.{
  AccountEventRow, credit, debit, credits, debits, activity_rows, list_activity_for_user,
}
use web_3_bank.Accounts.Rows.{activity_rows-sums, activity_rows-All}
use web_3_bank.Accounts.Activity.{
  ActivityView, map_kind, map_event_to_activity, Env, relay_status_at, add_view, entries_of,
  get_account_activity,
}
use web_3_bank.Accounts.Entries.{total_in, total_out, IsClear, Says, kind-Says}

add_view-sums :
    (chain : ℕ) (row : AccountEventRow) (user : Bytes) (o : Option ActivityView)
    (views : List ActivityView)
    → Says row user o
    → (total_in chain (add_view o views)
        ≡ (if row.chain_id == chain then credit user row else 0) + total_in chain views)
      × (total_out chain (add_view o views)
          ≡ (if row.chain_id == chain then debit user row else 0) + total_out chain views)
unfolding total_in total_out
add_view-sums chain row user none views says =
    let i : 0 ≡ credit user row = says.adds in
    let o : 0 ≡ debit user row = says.takes in
    (rw (sym i) (ground arith), rw (sym o) (ground arith))
add_view-sums chain row user (some v) views says =
    (rw (says.place, says.adds) refl, rw (says.place, says.takes) refl)

entries_of-sums :
    (env : Env) (chain : ℕ) (user : Bytes) (t : ℕ) (rows : List AccountEventRow)
    → All (IsClear user) rows
    → (total_in chain (entries_of env user t rows) ≡ credits chain user rows)
      × (total_out chain (entries_of env user t rows) ≡ debits chain user rows)
unfolding entries_of map_event_to_activity credits debits total_in total_out
entries_of-sums env chain user t [] h = (refl, refl)
entries_of-sums env chain user t (row ∷ rows) h =
    let relay = relay_status_at env t row in
    let (c, d) = entries_of-sums env chain user (t + 1) rows h.1 in
    let (i, o) =
      add_view-sums chain row user (map_kind row.event_kind row user relay)
        (entries_of env user (t + 1) rows) (kind-Says row.event_kind row user relay refl h.0) in
    (rw (i, c) refl, rw (o, d) refl)

take-short : (n : ℕ) (rows : List AccountEventRow) → length rows ≤ n → take n rows ≡ rows
take-short zero [] h = refl
take-short (suc n) [] h = refl
take-short zero (r ∷ rows) h = absurd (omega arith)
take-short (suc n) (r ∷ rows) h = ap (λ l. r ∷ l) (take-short n rows (omega arith))

-- On each chain, the incoming entries of a user's activity add up to what the indexed balance adds
-- for the user, and the outgoing ones to what it takes: if the database answers, the user has no more
-- rows than the limit, which is at most 100, and no transfer in the table is from the user to the
-- user or lacks an address.
pub get_account_activity-sums :
    (env : Env) (t : ℕ) (user : Bytes) (limit chain : ℕ)
    → env.database_up t ≡ true
    → length (activity_rows user (env.events t)) ≤ limit
    → limit ≤ 100
    → All (IsClear user) (env.events t)
    → (total_in chain (get_account_activity env t user limit) ≡ credits chain user (env.events t))
      × (total_out chain (get_account_activity env t user limit) ≡ debits chain user (env.events t))
unfolding get_account_activity list_activity_for_user
get_account_activity-sums env t user limit chain up short small clear =
    let rows = activity_rows user (env.events t) in
    let all : take (min (max 1 limit) 100) rows ≡ rows =
      take-short (min (max 1 limit) 100) rows (omega arith) in
    let (c, d) = activity_rows-sums chain user (env.events t) in
    let (i, o) =
      entries_of-sums env chain user (t + 1) rows
        (activity_rows-All (IsClear user) user (env.events t) clear) in
    (rw (up, all) (i ∙ c), rw (up, all) (o ∙ d))
