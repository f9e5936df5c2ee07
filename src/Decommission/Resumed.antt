-- ===== src/Decommission/Resumed.antt =====
-- The drain that services/treasury/src/server.rs takes up again after a start.
use mathlib.Core.Path.{subst}
use web_3_bank.Prelude.{
  ℕ, ◌+◌, ◌<◌, ◌^◌, ◌≡◌, ◌≢◌, ◌++◌, refl, sym, ap, ◌∙◌, true, ◌&&◌, Bool-cases, Option, none, some,
  inl, inr, List, [], ◌∷◌, ◌==◌, leb, Bytes, ◌===◌, ===→eq, All, All-map, length,
}
use web_3_bank.Decommission.Drain.{DrainPlan, run_drain_plan}
use web_3_bank.Decommission.DrainIds.{make_drain_id, parse_drain_id, parse_drain_id-make_drain_id}
use web_3_bank.Decommission.Plan.{holders_for_chain_index, build_drain_plan}
use web_3_bank.Decommission.Queries.{has_incomplete_ops, latest_incomplete_pair}
use web_3_bank.Decommission.Server.{
  Server, Status, State, check_decommission_admin, precondition, occupied, dust_tolerance,
  holder_total, waited, begin_drain, start_checked, start_decommission_drain, finish_drain, boot,
}
use web_3_bank.Decommission.Control.{Step, starts, ends, Run, here, next}
use web_3_bank.Decommission.Drain

-- Every drain that ends leaves the server with a drain to resume.
abbrev LeavesOne : {v : Server} {s s' : State} → Step v s s' → Type 0
LeavesOne (starts h source target) = Unit
LeavesOne {s' = s'} (ends id plan before after e) = s'.resumable_drain_id ≢ none

abbrev pub IsUnfinished : {v : Server} {s s' : State} → Run v s s' → Type 0
IsUnfinished here = Unit
IsUnfinished (next run step) = IsUnfinished run × LeavesOne step

-- The drain is the resumable one, and no other runs.
record Held (id : Bytes) (s : State) : Type 0 where
  resumable : s.resumable_drain_id ≡ some id
  tasks : All (λ (e : Bytes × DrainPlan). e.0 ≡ id) s.tasks

begin-Held :
    (held : Bytes) (dust : ℕ) (id : Bytes) (plan : DrainPlan) (total : Option ℕ) (s : State)
    → id ≡ held
    → Held held s
    → Held held (begin_drain dust id plan total s).1
unfolding begin_drain
begin-Held held dust id plan none s e h = h
begin-Held held dust id plan (some total) s e h =
    elim (Bool-cases (leb total dust && ((plan.pool_amount == 0) && (plan.reserve_amount == 0)))) [
      | inl nothing ↦ rw nothing h
      | inr left ↦ rw left (record { resumable = ap some e; tasks = (e, h.tasks) })
    ]

waited-Held : (held : Bytes) (n : ℕ) (s : State) → Held held s → Held held (waited n s)
waited-Held held n s h = record { resumable = h.resumable; tasks = h.tasks }

-- A free place is one for the resumable drain.
free-resumable :
    (id held : Bytes) (running resumable : Option Bytes)
    → occupied id running resumable ≡ none
    → resumable ≡ some held
    → id ≡ held
unfolding occupied
free-resumable id held (some r) resumable e h = cc
free-resumable id held none none e h = cc
free-resumable id held none (some k) e h = elim (Bool-cases (k === id)) [
  | inl own ↦ let same : k ≡ id = ===→eq k id own in cc
  | inr other ↦ let no = rw other at e in cc
]

module _ (v : Server) (held : Bytes) (source target : ℕ) where
  start_checked-Held :
      (admin chains busy : Option Status) (s : State)
      → busy ≡ occupied (make_drain_id source target) s.running_drain_id s.resumable_drain_id
      → Held held s
      → Held held (start_checked v source target admin chains busy s).1
  unfolding start_checked
  start_checked-Held (some e) chains busy s is h = h
  start_checked-Held none (some e) busy s is h = waited-Held held 6 s h
  start_checked-Held none none (some e) s is h = waited-Held held 6 s h
  start_checked-Held none none none s is h =
      let id = make_drain_id source target in
      let holders = holders_for_chain_index v.runtime (s.drain.tick + 6) source in
      let plan = build_drain_plan v.runtime source target holders (s.drain.tick + 6 + 1) in
      let n = 9 + length plan.holders in
      begin-Held held (dust_tolerance v.dust_tolerance_wei) id plan (holder_total 0 plan.holders)
        (waited n s)
        (free-resumable id held s.running_drain_id s.resumable_drain_id (sym is) h.resumable)
        (waited-Held held n s h)

All-remove {ℓ κ} :
    {A : Type ℓ} (P : A → Type κ) (xs : List A) (y : A) (ys : List A)
    → All P (xs ++ (y ∷ ys))
    → P y × All P (xs ++ ys)
All-remove P [] y ys h = h
All-remove P (x ∷ xs) y ys h = let rest = All-remove P xs y ys h.1 in (rest.0, (h.0, rest.1))

-- The drain that ends is the resumable one, and stays so.
finish-Held :
    (v : Server) (held id : Bytes) (plan : DrainPlan) (before after : List (Bytes × DrainPlan))
    (s : State)
    → s.tasks ≡ before ++ ((id, plan) ∷ after)
    → (finish_drain v id plan (record s { tasks = before ++ after })).resumable_drain_id ≢ none
    → Held held s
    → Held held (finish_drain v id plan (record s { tasks = before ++ after }))
unfolding finish_drain
finish-Held v held id plan before after s e left h =
    let drained = (run_drain_plan v.ports plan s.drain).1 in
    let (own, others) =
      All-remove (λ (t : Bytes × DrainPlan). t.0 ≡ held) before (id, plan) after
        (subst (All (λ (t : Bytes × DrainPlan). t.0 ≡ held)) e h.tasks) in
    elim (Bool-cases (v.ports.database_up drained.tick && has_incomplete_ops drained.ops)) [
      | inl more ↦ record { resumable = rw more (ap some own); tasks = others }
      | inr no_more ↦ absurd (left (rw no_more refl))
    ]

step-Held :
    (v : Server) (held : Bytes) {s s' : State} (step : Step v s s')
    → LeavesOne step
    → Held held s
    → Held held s'
unfolding start_decommission_drain
step-Held v held {s} (starts headers source target) left h =
    start_checked-Held v held source target (check_decommission_admin v.admin_token headers)
      (precondition v s.drain.tick source target)
      (occupied (make_drain_id source target) s.running_drain_id s.resumable_drain_id) s refl h
step-Held v held {s} (ends id plan before after e) left h =
    finish-Held v held id plan before after s e left h

Run-Held :
    (v : Server) (held : Bytes) {s s' : State} (run : Run v s s')
    → IsUnfinished run
    → Held held s
    → Held held s'
Run-Held v held here left h = h
Run-Held v held (next run step) left h = step-Held v held step left.1 (Run-Held v held run left.0 h)

-- If the database answers at the start and has an unfinished row, of a pair of u64 chains, then after
-- any requests and ends of drains, of which each end leaves the server with a drain to resume, that
-- drain has the identifier of the last such row's pair, and so has every drain that runs; it is read
-- back as this pair.
pub Run-boot :
    (v : Server) (d : Drain.State) (source target : ℕ) {s : State} (run : Run v (boot true d) s)
    → IsUnfinished run
    → latest_incomplete_pair d.ops ≡ some (source, target)
    → source < 2 ^ 64
    → target < 2 ^ 64
    → (s.resumable_drain_id ≡ some (make_drain_id source target))
      × All
          (λ (e : Bytes × DrainPlan).
            (e.0 ≡ make_drain_id source target) × (parse_drain_id e.0 ≡ some (source, target)))
          s.tasks
unfolding boot
Run-boot v d source target {s} run unfinished left low high =
    let held = make_drain_id source target in
    let start : Held held (boot true d) = record { resumable = rw (left, boot) refl; tasks = tt } in
    let h : Held held s = Run-Held v held run unfinished start in
    (
      h.resumable,
      All-map (λ (e : Bytes × DrainPlan). e.0 ≡ held)
          (λ (e : Bytes × DrainPlan). (e.0 ≡ held) × (parse_drain_id e.0 ≡ some (source, target)))
          (λ e is. (is, ap parse_drain_id is ∙ parse_drain_id-make_drain_id source target low high))
          s.tasks h.tasks,
    )
