-- ===== src/Decommission/Status.antt =====
-- The status of a drain, services/treasury/src/server.rs.
use web_3_bank.Prelude.{
  ℕ, ◌+◌, Bool, false, ◌||◌, Option, none, some, List, [], ◌∷◌, if◌then◌else◌, Bytes, codes, ◌===◌,
}
use web_3_bank.Eth.Csv.{trim}
use web_3_bank.Decommission.Ops.{pending, submitted, paused, failed, status_text}
use web_3_bank.Decommission.DrainIds.{parse_drain_id}
use web_3_bank.Decommission.Queries.{status_counts, drained_amount_wei, last_error}
use web_3_bank.Decommission.Server.{
  Server, Headers, not_found, invalid_argument, Answer, replied, rejected, State,
  check_decommission_admin,
}

abbrev has_status : Bytes → List (Bytes × ℕ) → Bool
has_status status [] = false
has_status status ((t, n) ∷ counts) = (t === status) || has_status status counts

abbrev is_running : Bytes → Option Bytes → Bool
is_running id none = false
is_running id (some running) = running === id

unfoldable pub derive_drain_state : Option Bytes → Bytes → List (Bytes × ℕ) → Bytes
unfolding status_text
derive_drain_state running id counts =
    if is_running id running
    then codes "running"
    else (if has_status (status_text paused) counts || has_status (status_text failed) counts
        then codes "paused"
        else (if has_status (status_text pending) counts
              || has_status (status_text submitted) counts
            then codes "resumable"
            else codes "completed"))

pub record DrainStatus : Type 0 where
  pub drain_id : Bytes
  pub state : Bytes
  pub counts : List (Bytes × ℕ)
  pub drained_amount : ℕ
  pub error : Bytes

-- The identifier that is asked for, or that of the running or the resumable drain.
abbrev requested_id : Bytes → Option Bytes → Option Bytes → Option Bytes
requested_id requested running resumable = elim (trim requested) [
  | [] ↦ elim running [ none ↦ resumable | some id ↦ some id ]
  | c ∷ cs ↦ some requested
]

-- With the pair of the identifier; a failed query reads as empty.
abbrev status_of : Server → Bytes → Option (ℕ × ℕ) → State → Answer DrainStatus
status_of v id none s = rejected (invalid_argument (codes "drain_id must be '<source>-<target>'"))
status_of v id (some (source, target)) s =
    let t = s.drain.tick in
    let rows = s.drain.ops in
    let counts = if v.ports.database_up t then status_counts source target rows else [] in
    replied (record {
      drain_id = id;
      state = derive_drain_state s.running_drain_id id counts;
      counts = counts;
      drained_amount =
          if v.ports.database_up (t + 1) then drained_amount_wei source target rows else 0;
      error = elim (if v.ports.database_up (t + 2) then last_error source target rows else none) [
        | none ↦ []
        | some reason ↦ reason
      ];
    })

unfoldable pub get_decommission_drain_status : Server → Headers → Bytes → State → Answer DrainStatus
unfolding check_decommission_admin trim parse_drain_id derive_drain_state status_counts
    drained_amount_wei last_error
get_decommission_drain_status v h requested s = elim (check_decommission_admin v.admin_token h) [
  | some e ↦ rejected e
  | none ↦ elim (requested_id requested s.running_drain_id s.resumable_drain_id) [
    | none ↦ rejected (not_found (codes "no running or resumable drain found"))
    | some id ↦ status_of v id (parse_drain_id id) s
  ]
]
