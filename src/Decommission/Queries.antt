-- ===== src/Decommission/Queries.antt =====
-- What services/treasury/src/db/decommission_repo.rs reads for the drain's control. The rows of the
-- table are in the order of their start, the last first.
use web_3_bank.Prelude.{
  ℕ, ◌+◌, Bool, false, ◌&&◌, ◌||◌, Option, none, some, List, [], ◌∷◌, ◌==◌, if◌then◌else◌, Bytes,
  ◌===◌,
}
use web_3_bank.Decommission.Ops.{pending, submitted, completed, paused, status_text, DrainRow}

-- `status IN ('pending', 'submitted', 'paused')`
unfoldable pub is_incomplete : Bytes → Bool
unfolding status_text
is_incomplete status =
    (status === status_text pending)
    || ((status === status_text submitted) || (status === status_text paused))

unfoldable pub has_incomplete_ops : List DrainRow → Bool
unfolding is_incomplete
has_incomplete_ops [] = false
has_incomplete_ops (r ∷ rows) = is_incomplete r.status || has_incomplete_ops rows

unfoldable pub latest_incomplete_pair : List DrainRow → Option (ℕ × ℕ)
unfolding is_incomplete
latest_incomplete_pair [] = none
latest_incomplete_pair (r ∷ rows) =
    if is_incomplete r.status
    then some (r.chain_id, r.dst_chain_id)
    else latest_incomplete_pair rows

abbrev pub of_pair : ℕ → ℕ → DrainRow → Bool
of_pair source target r = (r.chain_id == source) && (r.dst_chain_id == target)

-- One more row of a status.
unfoldable pub add_status : Bytes → List (Bytes × ℕ) → List (Bytes × ℕ)
add_status status [] = (status, 1) ∷ []
add_status status ((t, n) ∷ counts) =
    if t === status then (t, n + 1) ∷ counts else (t, n) ∷ add_status status counts

-- `GROUP BY status`
unfoldable pub status_counts : ℕ → ℕ → List DrainRow → List (Bytes × ℕ)
unfolding add_status
status_counts source target [] = []
status_counts source target (r ∷ rows) =
    let counts = status_counts source target rows in
    if of_pair source target r then add_status r.status counts else counts

unfoldable pub drained_amount_wei : ℕ → ℕ → List DrainRow → ℕ
unfolding status_text
drained_amount_wei source target [] = 0
drained_amount_wei source target (r ∷ rows) =
    let sum = drained_amount_wei source target rows in
    if of_pair source target r && (r.status === status_text completed) then r.amount + sum else sum

abbrev or_else : Option Bytes → Option Bytes → Option Bytes
or_else none e = e
or_else (some reason) e = some reason

unfoldable pub last_error : ℕ → ℕ → List DrainRow → Option Bytes
last_error source target [] = none
last_error source target (r ∷ rows) =
    let earlier = last_error source target rows in
    if of_pair source target r then or_else r.failure_reason earlier else earlier
