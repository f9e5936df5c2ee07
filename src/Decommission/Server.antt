-- ===== src/Decommission/Server.antt =====
-- The control of drains in services/treasury/src/server.rs.
use web_3_bank.Prelude.{
  ℕ, ◌+◌, ◌-◌, ◌*◌, ◌^◌, min, Bool, false, not, ◌&&◌, ◌||◌, Option, none, some, List, [], ◌∷◌, ◌==◌,
  ltb, leb, if◌then◌else◌, Bytes, codes, ◌===◌, starts_with, drop, length,
}
use web_3_bank.Decommission.Drain.{HolderBalance, DrainPlan, Ports, run_drain_plan}
use web_3_bank.Decommission.DrainIds.{make_drain_id}
use web_3_bank.Decommission.Plan.{
  Runtime, index_fresh_enough, holders_for_chain_index, is_source_draining, has_required_roles,
  build_drain_plan,
}
use web_3_bank.Decommission.Queries.{has_incomplete_ops, latest_incomplete_pair}
use web_3_bank.Decommission.Drain

-- What the server is built with.
pub record Server : Type 0 where
  pub runtime : Runtime
  pub ports : Ports
  pub admin_token : Option Bytes
  pub dust_tolerance_wei : Bytes

-- A refusal, by its code.
pub data Status : Type 0 where
  failed_precondition permission_denied already_exists not_found invalid_argument : Bytes → Status

-- A reply, a refusal, or a panic of the handler.
pub data Answer (A : Type 0) : Type 0 where
  replied : A → Answer A
  rejected : Status → Answer A
  panicked : Answer A

-- `DrainRuntimeState`, with the drain's own state and the tasks that were spawned and still run.
pub record State : Type 0 where
  pub drain : Drain.State
  pub running_drain_id : Option Bytes
  pub resumable_drain_id : Option Bytes
  pub tasks : List (Bytes × DrainPlan)

-- The two headers that may hold the token.
pub record Headers : Type 0 where
  pub admin : Option Bytes
  pub authorization : Option Bytes

abbrev is_token : Bytes → Option Bytes → Bool
is_token expected none = false
is_token expected (some raw) = raw === expected

-- `strip_prefix("Bearer ").unwrap_or(..)`
abbrev bearer : Option Bytes → Option Bytes
bearer none = none
bearer (some raw) = if starts_with (codes "Bearer ") raw then some (drop 7 raw) else some raw

-- Why a request is refused, if it is.
unfoldable pub check_decommission_admin : Option Bytes → Headers → Option Status
unfolding starts_with
check_decommission_admin none h =
    some (failed_precondition (codes "DECOMMISSION_ADMIN_TOKEN is not configured"))
check_decommission_admin (some expected) h =
    if is_token expected h.admin || is_token expected (bearer h.authorization)
    then none
    else some (permission_denied (codes "missing or invalid decommission admin token"))

-- The checks of the chains and the roles, in their order.
unfoldable pub precondition : Server → ℕ → ℕ → ℕ → Option Status
unfolding index_fresh_enough is_source_draining has_required_roles
precondition v t source target =
    if not (index_fresh_enough v.runtime t source)
    then some
        (failed_precondition (codes "account_events index cursor is too stale for source chain"))
    else (if not (is_source_draining v.runtime (t + 2) source)
        then some
            (failed_precondition (codes "source chain is not marked draining in RouteReceiver"))
        else (if not (v.ports.is_chain_active (t + 3) target)
            then some (failed_precondition (codes "target chain is not active"))
            else (if not (has_required_roles v.runtime (t + 4) source)
                then some
                    (failed_precondition (codes "treasury signer missing required bank roles"))
                else none)))

-- Of the running and the resumable drain.
unfoldable pub occupied : Bytes → Option Bytes → Option Bytes → Option Status
occupied id (some running) resumable = some (already_exists (codes "a drain is already running"))
occupied id none none = none
occupied id none (some resumable) =
    if resumable === id
    then none
    else some
        (already_exists (codes "a different drain is resumable; resume it before starting another"))

u128_digits : ℕ → Bytes → Option ℕ
u128_digits n [] = some n
u128_digits n (c ∷ cs) =
    let m = n * 10 + (c - b'0') in
    let rest = u128_digits m cs in
    if (leb b'0' c && leb c b'9') && ltb m (2 ^ 128) then rest else none

-- `parse::<u128>()`
parse_u128 : Bytes → Option ℕ
unfolding u128_digits
parse_u128 [] = none
parse_u128 (c ∷ []) = if c == b'+' then none else u128_digits 0 (c ∷ [])
parse_u128 (c ∷ d ∷ cs) = if c == b'+' then u128_digits 0 (d ∷ cs) else u128_digits 0 (c ∷ d ∷ cs)

unfoldable pub dust_tolerance : Bytes → ℕ
unfolding parse_u128
dust_tolerance text = elim (parse_u128 text) [ none ↦ 0 | some n ↦ n ]

-- The fold with `saturating_add`; `to::<u128>()` panics on a larger amount.
unfoldable pub holder_total : ℕ → List HolderBalance → Option ℕ
holder_total total [] = some total
holder_total total (h ∷ holders) =
    let rest = holder_total (min (total + h.amount) (2 ^ 128 - 1)) holders in
    if ltb h.amount (2 ^ 128) then rest else none

-- The states after a drain has begun: its task is spawned.
abbrev pub spawned : Bytes → DrainPlan → State → State
spawned id plan s = record s {
  running_drain_id = some id;
  resumable_drain_id = some id;
  tasks = (id, plan) ∷ s.tasks;
}

-- With the sum of the holders' amounts.
unfoldable pub begin_drain : ℕ → Bytes → DrainPlan → Option ℕ → State → Answer Bytes × State
begin_drain dust id plan none s = (panicked, s)
begin_drain dust id plan (some total) s =
    if leb total dust && ((plan.pool_amount == 0) && (plan.reserve_amount == 0))
    then (
      rejected (
          failed_precondition (codes "drain plan has no actionable balances above dust tolerance")),
      s,
    )
    else (replied id, spawned id plan s)

abbrev pub waited : ℕ → State → State
waited n s = record s { drain = record s.drain { tick = s.drain.tick + n } }

-- With the refusals of the three checks; the plan is built after them.
unfoldable pub start_checked :
    Server → ℕ → ℕ → Option Status → Option Status → Option Status → State → Answer Bytes × State
unfolding holders_for_chain_index build_drain_plan holder_total dust_tolerance begin_drain
    make_drain_id
start_checked v source target (some e) chains busy s = (rejected e, s)
start_checked v source target none (some e) busy s = (rejected e, waited 6 s)
start_checked v source target none none (some e) s = (rejected e, waited 6 s)
start_checked v source target none none none s =
    let t = s.drain.tick + 6 in
    let plan =
      build_drain_plan v.runtime source target (holders_for_chain_index v.runtime t source)
        (t + 1) in
    begin_drain (dust_tolerance v.dust_tolerance_wei) (make_drain_id source target) plan
      (holder_total 0 plan.holders) (waited (9 + length plan.holders) s)

unfoldable pub start_decommission_drain : Server → Headers → ℕ → ℕ → State → Answer Bytes × State
unfolding start_checked check_decommission_admin precondition occupied make_drain_id
start_decommission_drain v h source target s =
    start_checked v source target (check_decommission_admin v.admin_token h)
      (precondition v s.drain.tick source target)
      (occupied (make_drain_id source target) s.running_drain_id s.resumable_drain_id) s

-- The spawned task, from its start to its end, once it is no longer listed.
unfoldable pub finish_drain : Server → Bytes → DrainPlan → State → State
unfolding run_drain_plan has_incomplete_ops
finish_drain v id plan s =
    let drained = (run_drain_plan v.ports plan s.drain).1 in
    record s {
      drain = record drained { tick = drained.tick + 1 };
      running_drain_id = none;
      resumable_drain_id =
          if v.ports.database_up drained.tick && has_incomplete_ops drained.ops
          then some id
          else none;
    }

-- The start of the service (main.rs), with whether the database answers.
unfoldable pub boot : Bool → Drain.State → State
unfolding latest_incomplete_pair make_drain_id
boot up d = record {
  drain = d;
  running_drain_id = none;
  resumable_drain_id = elim (if up then latest_incomplete_pair d.ops else none) [
    | none ↦ none
    | some (source, target) ↦ some (make_drain_id source target)
  ];
  tasks = [];
}
