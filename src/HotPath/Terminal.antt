-- ===== src/HotPath/Terminal.antt =====
-- What is sent to a decommissioned chain by the loops of services/treasury/src/hot_path.rs.
use web_3_bank.Prelude.{
  ℕ, ◌≡◌, ◌≢◌, refl, sym, ap, ◌∙◌, true, false, Bool-cases, Option-cases, inl, inr, Option, none,
  some, List, [], ◌∷◌, ◌++◌, Bytes, All, All-append, All-map, get_elem?, arith,
}
use mathlib.Core.List.{append_assoc}
use web_3_bank.Prelude.Dict.{Dict, contains}
use web_3_bank.Eth.Submit.{Net, Sent}
use web_3_bank.Eth.Submit.Sends.{IsFor}
use web_3_bank.Eth.Activation.{decode_indexed_u64_topic}
use web_3_bank.Watcher.Events.{RpcLog}
use web_3_bank.HotPath.RelayLogs.{HotPathEvent}
use web_3_bank.HotPath.Relay.{Env, State, later, is_chain_active, release_call, relay_event}
use web_3_bank.HotPath.Safety.{Outcome, quiet, released, relay_event-Outcome}
use web_3_bank.HotPath.Polls.{
  add_member, decommission, decommission_topic, apply_decommissions, apply_activations, route_logs,
  poll_routes_to, poll_routes,
}
use web_3_bank.HotPath.Decommissioned.{relay_event-decommissioned}

-- What was sent before is kept, and none of what was sent since is for the chain.
pub record Unsent (chain : ℕ) (n n' : Net) : Type 0 where
  pub new : List Sent
  pub extended : n'.sent ≡ new ++ n.sent
  pub elsewhere : All (λ x. x.tx.chain_id ≢ chain) new

Unsent-refl : (chain : ℕ) (n n' : Net) → n'.sent ≡ n.sent → Unsent chain n n'
Unsent-refl chain n n' e = record { new = []; extended = e; elsewhere = tt }

Unsent-trans :
    (chain : ℕ) (n n' n'' : Net) → Unsent chain n n' → Unsent chain n' n'' → Unsent chain n n''
Unsent-trans chain n n' n'' a b = record {
  new = b.new ++ a.new;
  extended = rw (b.extended, a.extended) (rw append_assoc);
  elsewhere = All-append (λ x. x.tx.chain_id ≢ chain) b.new a.new b.elsewhere a.elsewhere;
}

inactive :
    (chain dest : ℕ) (s : State)
    → contains chain s.decommissioned_chains ≡ true
    → is_chain_active dest s ≡ true
    → dest ≢ chain
unfolding is_chain_active
inactive chain dest s gone live e = elim (Bool-cases (contains dest s.active_chains)) [
  | inl listed ↦
      let same : contains dest s.decommissioned_chains ≡ true = rw e gone in
      let wrong : false ≡ true = rw (listed, same) at live in cc
  | inr missing ↦ let wrong : false ≡ true = rw missing at live in cc
]

relay_event-Unsent :
    (env : Env) (chain : ℕ) (event : HotPathEvent) (s : State)
    → contains chain s.decommissioned_chains ≡ true
    → Unsent chain s.net (relay_event env event s).net
unfolding release_call
relay_event-Unsent env chain event s gone = ended (relay_event-Outcome env event s)
  where
    ended : {t : State} → Outcome env event s t → Unsent chain s.net t.net
    ended {t} (quiet e) = Unsent-refl chain s.net t.net e
    ended {t} (released rpc bank tick depth fresh live has_rpc has_bank read covered sends) =
        record {
          new = sends.new;
          extended = sends.extended;
          elsewhere =
              All-map (IsFor (release_call env rpc bank event)) (λ x. x.tx.chain_id ≢ chain)
                (λ x for e. inactive chain event.dest_chain_id s gone live (sym for.same_chain ∙ e))
                sends.new sends.all_for;
        }

add_member-contains :
    (k j : ℕ) (s : List ℕ) → contains k s ≡ true → contains k (add_member j s) ≡ true
add_member-contains k j s h = ground arith

decommission_topic-contains :
    (k : ℕ) (topic : Option Bytes) (s : State)
    → contains k s.decommissioned_chains ≡ true
    → contains k (decommission_topic topic s).decommissioned_chains ≡ true
unfolding decommission_topic decommission
decommission_topic-contains k none s h = h
decommission_topic-contains k (some topic) s h =
    elim (Option-cases (decode_indexed_u64_topic topic)) [
      | inl garbled ↦ rw garbled h
      | inr (chain, is) ↦ rw is (add_member-contains k chain s.decommissioned_chains h)
    ]

apply_decommissions-contains :
    (k : ℕ) (logs : List RpcLog) (s : State)
    → contains k s.decommissioned_chains ≡ true
    → contains k (apply_decommissions logs s).decommissioned_chains ≡ true
unfolding apply_decommissions
apply_decommissions-contains k [] s h = h
apply_decommissions-contains k (log ∷ logs) s h =
    apply_decommissions-contains k logs (decommission_topic (get_elem? log.topics 1) s)
      (decommission_topic-contains k (get_elem? log.topics 1) s h)

decommission_topic-net :
    (topic : Option Bytes) (s : State) → (decommission_topic topic s).net ≡ s.net
unfolding decommission_topic decommission
decommission_topic-net none s = refl
decommission_topic-net (some topic) s = elim (Option-cases (decode_indexed_u64_topic topic)) [
  | inl garbled ↦ rw garbled refl
  | inr (chain, is) ↦ rw is refl
]

apply_decommissions-net :
    (logs : List RpcLog) (s : State) → (apply_decommissions logs s).net ≡ s.net
unfolding apply_decommissions
apply_decommissions-net [] s = refl
apply_decommissions-net (log ∷ logs) s =
    apply_decommissions-net logs (decommission_topic (get_elem? log.topics 1) s)
    ∙ decommission_topic-net (get_elem? log.topics 1) s

-- A step of the hot path: the relay of an event, a round of the RouteReceiver's loop at any cursor, or
-- any other call out.
pub data Step (env : Env) : State → State → Type 0 where
  relays : {s : State} (event : HotPathEvent) → Step env s (relay_event env event s)
  polls : {s : State} (last : ℕ) → Step env s (poll_routes env last s).1
  waits : {s : State} → Step env s (later s)

pub data Run (env : Env) (s : State) : State → Type 0 where
  here : Run env s s
  next : {t u : State} → Run env s t → Step env t u → Run env s u

-- A chain stays decommissioned, and nothing is sent to it.
abbrev Stays : ℕ → State → State → Type 0
Stays chain s t = (contains chain t.decommissioned_chains ≡ true) × Unsent chain s.net t.net

poll_routes_to-Stays :
    (env : Env) (chain last : ℕ) (rpc : Bytes) (to : Option ℕ) (s : State)
    → contains chain s.decommissioned_chains ≡ true
    → Stays chain s (poll_routes_to env rpc last to (later s)).1
unfolding poll_routes_to
poll_routes_to-Stays env chain last rpc none s gone =
    (gone, Unsent-refl chain s.net (later s).net refl)
poll_routes_to-Stays env chain last rpc (some to) s gone =
    let at = later s in
    let logs = route_logs env rpc env.activation_topic last to at.net.tick in
    let s' = record (later at) { active_chains = apply_activations logs at.active_chains } in
    let ended = route_logs env rpc env.decommission_finalized_topic last to s'.net.tick in
    (
      apply_decommissions-contains chain ended (later s') gone,
      Unsent-refl chain s.net (apply_decommissions ended (later s')).net
          (ap (λ (n : Net). n.sent) (apply_decommissions-net ended (later s'))),
    )

poll_routes-Stays :
    (env : Env) (chain last : ℕ) (s : State)
    → contains chain s.decommissioned_chains ≡ true
    → Stays chain s (poll_routes env last s).1
unfolding poll_routes
poll_routes-Stays env chain last s gone = on_urls env.rpc_urls
  where
    on_urls :
        (urls : Dict Bytes)
        → Stays chain s
            (elim urls as (λ _. ℕ × State) [
              | [] ↦ (last, s)
              | (c, rpc) ∷ urls ↦
                  poll_routes_to env rpc last (env.fetch_block_number s.net.tick rpc) (later s)
            ]).1
    on_urls [] = (gone, Unsent-refl chain s.net s.net refl)
    on_urls ((c, rpc) ∷ urls) =
        poll_routes_to-Stays env chain last rpc (env.fetch_block_number s.net.tick rpc) s gone

Step-Stays :
    (env : Env) (chain : ℕ) {s t : State}
    → Step env s t
    → contains chain s.decommissioned_chains ≡ true
    → Stays chain s t
Step-Stays env chain {s} (relays event) gone =
    (rw (relay_event-decommissioned env event s) gone, relay_event-Unsent env chain event s gone)
Step-Stays env chain {s} (polls last) gone = poll_routes-Stays env chain last s gone
Step-Stays env chain {s} waits gone = (gone, Unsent-refl chain s.net (later s).net refl)

-- Once a chain is known as decommissioned, it is so after any relays of events and rounds of the
-- RouteReceiver's loop, in any order and whatever is answered to them, and none of the transactions
-- that they send is for that chain, also when a later activation names it again.
pub Run-Stays :
    (env : Env) (chain : ℕ) {s t : State}
    → contains chain s.decommissioned_chains ≡ true
    → Run env s t
    → (contains chain t.decommissioned_chains ≡ true) × Unsent chain s.net t.net
Run-Stays env chain {s} gone here = (gone, Unsent-refl chain s.net s.net refl)
Run-Stays env chain {s} {t} gone (next {t = m} run step) =
    let (still, before) = Run-Stays env chain gone run in
    let (ended, after) = Step-Stays env chain step still in
    (ended, Unsent-trans chain s.net m.net t.net before after)
