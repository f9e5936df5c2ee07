-- ===== src/Decommission/Control.antt =====
-- At most one drain runs: the steps of services/treasury/src/server.rs.
use web_3_bank.Prelude.{
  ℕ, ◌+◌, ◌≤◌, ◌≡◌, ◌≢◌, refl, sym, ◌∙◌, Bool, ◌&&◌, Bool-cases, Option, none, some, inl, inr, List,
  [], ◌∷◌, ◌++◌, ◌==◌, leb, Bytes, length,
}
use web_3_bank.Prelude.Dict.{get}
use web_3_bank.Eth.Rpc.{fetch_address_view}
use web_3_bank.Decommission.Drain.{HolderBalance, DrainPlan}
use web_3_bank.Decommission.DrainIds.{make_drain_id}
use web_3_bank.Decommission.Plan.{
  Runtime, holders_for_chain_index, plan_from, plan_at, build_drain_plan,
}
use web_3_bank.Decommission.PlanHolders.{count_of, build_drain_plan-count}
use web_3_bank.Decommission.Server.{
  Server, Status, State, Headers, check_decommission_admin, precondition, occupied, dust_tolerance,
  holder_total, waited, begin_drain, start_checked, start_decommission_drain, finish_drain, boot,
}
use web_3_bank.Decommission.Drain

-- A request, or the end of a task; a request of the status changes nothing.
pub data Step (v : Server) (s : State) : State → Type 0 where
  starts :
      (h : Headers) (source target : ℕ) → Step v s (start_decommission_drain v h source target s).1
  ends :
      (id : Bytes) (plan : DrainPlan) (before after : List (Bytes × DrainPlan))
      → s.tasks ≡ before ++ ((id, plan) ∷ after)
      → Step v s (finish_drain v id plan (record s { tasks = before ++ after }))

pub data Run (v : Server) (s : State) : State → Type 0 where
  here : Run v s s
  next : {s' s'' : State} → Run v s s' → Step v s' s'' → Run v s s''

-- A drain that may run: its identifier names its chains, and no two holders are the same.
pub record IsDrain (id : Bytes) (plan : DrainPlan) : Type 0 where
  pub named : id ≡ make_drain_id plan.source_chain plan.target_chain
  pub different : (a : Bytes) → count_of a plan.holders ≤ 1

-- No drain runs, or one does, which is on record as running and as resumable.
pub data OneDrain (s : State) : Type 0 where
  idle : s.tasks ≡ [] → s.running_drain_id ≡ none → OneDrain s
  drains :
      (id : Bytes) (plan : DrainPlan)
      → s.tasks ≡ (id, plan) ∷ []
      → s.running_drain_id ≡ some id
      → s.resumable_drain_id ≡ some id
      → IsDrain id plan
      → OneDrain s

plan_from-chains :
    (r : Runtime) (source target : ℕ) (holders : List Bytes) (t : ℕ) (url bank : Bytes)
    (token : Option Bytes)
    → ((plan_from r source target holders t url bank token).source_chain ≡ source)
      × ((plan_from r source target holders t url bank token).target_chain ≡ target)
unfolding plan_from
plan_from-chains r source target holders t url bank none = (refl, refl)
plan_from-chains r source target holders t url bank (some token) = (refl, refl)

plan_at-chains :
    (r : Runtime) (source target : ℕ) (holders : List Bytes) (t : ℕ) (url bank : Option Bytes)
    → ((plan_at r source target holders t url bank).source_chain ≡ source)
      × ((plan_at r source target holders t url bank).target_chain ≡ target)
unfolding plan_at
plan_at-chains r source target holders t none bank = (refl, refl)
plan_at-chains r source target holders t (some url) none = (refl, refl)
plan_at-chains r source target holders t (some url) (some bank) =
    plan_from-chains r source target holders (t + 1) url bank
      (fetch_address_view r.wire t url bank r.sync_usd_selector)

build_drain_plan-IsDrain :
    (r : Runtime) (source target : ℕ) (holders : List Bytes) (t : ℕ)
    → IsDrain (make_drain_id source target) (build_drain_plan r source target holders t)
unfolding build_drain_plan
build_drain_plan-IsDrain r source target holders t =
    let (s, d) =
      plan_at-chains r source target holders t (get source r.rpc_urls)
        (get source r.contract_addresses) in
    record { named = rw (s, d) refl; different = build_drain_plan-count r source target holders t }

-- The time may pass.
later-OneDrain : (s : State) (d : Drain.State) → OneDrain s → OneDrain (record s { drain = d })
later-OneDrain s d (idle t r) = idle t r
later-OneDrain s d (drains id plan t r p h) = drains id plan t r p h

begin-OneDrain :
    (dust : ℕ) (id : Bytes) (plan : DrainPlan) (total : Option ℕ) (s : State)
    → s.tasks ≡ []
    → s.running_drain_id ≡ none
    → IsDrain id plan
    → OneDrain (begin_drain dust id plan total s).1
unfolding begin_drain
begin-OneDrain dust id plan none s t r h = idle t r
begin-OneDrain dust id plan (some total) s t r h =
    elim (Bool-cases (leb total dust && ((plan.pool_amount == 0) && (plan.reserve_amount == 0)))) [
      | inl nothing ↦ rw nothing (idle t r)
      | inr left ↦ rw left (drains id plan (rw t refl) refl refl h)
    ]

-- A free place means that no drain runs.
free-running :
    (id : Bytes) (running resumable : Option Bytes)
    → occupied id running resumable ≡ none
    → running ≡ none
unfolding occupied
free-running id none resumable h = refl
free-running id (some r) resumable h = cc

module _ (v : Server) (source target : ℕ) where
  start_checked-OneDrain :
      (admin chains busy : Option Status) (s : State)
      → busy ≡ occupied (make_drain_id source target) s.running_drain_id s.resumable_drain_id
      → OneDrain s
      → OneDrain (start_checked v source target admin chains busy s).1
  unfolding start_checked
  start_checked-OneDrain (some e) chains busy s is h = h
  start_checked-OneDrain none (some e) busy s is h = later-OneDrain s (waited 6 s).drain h
  start_checked-OneDrain none none (some e) s is h = later-OneDrain s (waited 6 s).drain h
  start_checked-OneDrain none none none s is (idle t r) =
      let holders = holders_for_chain_index v.runtime (s.drain.tick + 6) source in
      let plan = build_drain_plan v.runtime source target holders (s.drain.tick + 6 + 1) in
      begin-OneDrain (dust_tolerance v.dust_tolerance_wei) (make_drain_id source target) plan
        (holder_total 0 plan.holders) (waited (9 + length plan.holders) s) t r
        (build_drain_plan-IsDrain v.runtime source target holders (s.drain.tick + 6 + 1))
  start_checked-OneDrain none none none s is (drains id plan t r p h) =
      let free =
        free-running (make_drain_id source target) s.running_drain_id s.resumable_drain_id
          (sym is) in
      cc

start-OneDrain :
    (v : Server) (h : Headers) (source target : ℕ) (s : State)
    → OneDrain s
    → OneDrain (start_decommission_drain v h source target s).1
unfolding start_decommission_drain
start-OneDrain v h source target s one =
    start_checked-OneDrain v source target (check_decommission_admin v.admin_token h)
      (precondition v s.drain.tick source target)
      (occupied (make_drain_id source target) s.running_drain_id s.resumable_drain_id) s refl one

no_task :
    (e : Bytes × DrainPlan) (before after : List (Bytes × DrainPlan)) → before ++ (e ∷ after) ≢ []
no_task e [] after h = cc
no_task e (b ∷ before) after h = cc

-- The only task is the one that ends.
only_task :
    (e e' : Bytes × DrainPlan) (before after : List (Bytes × DrainPlan))
    → before ++ (e ∷ after) ≡ e' ∷ []
    → before ++ after ≡ []
only_task e e' [] [] h = refl
only_task e e' [] (f ∷ after) h = cc
only_task e e' (b ∷ before) after h =
    let rest : before ++ (e ∷ after) ≡ [] = cc in absurd (no_task e before after rest)

finish-OneDrain :
    (v : Server) (id : Bytes) (plan : DrainPlan) (before after : List (Bytes × DrainPlan))
    (s : State)
    → s.tasks ≡ before ++ ((id, plan) ∷ after)
    → OneDrain s
    → OneDrain (finish_drain v id plan (record s { tasks = before ++ after }))
unfolding finish_drain
finish-OneDrain v id plan before after s e (idle t r) =
    absurd (no_task (id, plan) before after (sym e ∙ t))
finish-OneDrain v id plan before after s e (drains id' plan' t r p h) =
    idle (only_task (id, plan) (id', plan') before after (sym e ∙ t)) refl

step-OneDrain : (v : Server) (s s' : State) → Step v s s' → OneDrain s → OneDrain s'
step-OneDrain v s s' (starts h source target) one = start-OneDrain v h source target s one
step-OneDrain v s s' (ends id plan before after e) one =
    finish-OneDrain v id plan before after s e one

-- However the service starts and whatever requests and ends of drains follow, at most one drain runs:
-- the one on record as running and as resumable, under the identifier of its two chains, and with no
-- holder twice in its plan.
pub Run-OneDrain :
    (v : Server) (up : Bool) (d : Drain.State) {s : State} → Run v (boot up d) s → OneDrain s
unfolding boot
Run-OneDrain v up d here = idle refl refl
Run-OneDrain v up d (next {s'} {s''} run step) =
    step-OneDrain v s' s'' step (Run-OneDrain v up d run)
