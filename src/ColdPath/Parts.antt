-- ===== src/ColdPath/Parts.antt =====
-- The transactions of an operation's chunks, of services/treasury/src/cold_path.rs.
use web_3_bank.Prelude.{
  ℕ, ◌*◌, ◌≤◌, ◌<◌, ◌≡◌, refl, Bool-cases, inl, inr, List, [], ◌∷◌, ◌++◌, Bytes, length, All,
  All-append, All-map, length-append, arith,
}
use mathlib.Core.List.{append_assoc}
use web_3_bank.Eth.Submit.{Result, ok, err, Net, Sent, submit_with_retry, Logs}
use web_3_bank.Eth.Submit.Sends.{IsFor, Sends, submit_with_retry-Sends}
use web_3_bank.Rebalance.{Op}
use web_3_bank.ColdPath.Cycle.{
  Env, State, rebalance_call, record_chunk, submit_chunk, submit_chunks,
}

-- A transaction that moves part of an operation: more than 0 and at most the cap.
pub record IsPart (env : Env) (op : Op) (rpc bank : Bytes) (cap : ℕ) (t : Sent) : Type 0 where
  pub amount : ℕ
  pub positive : 0 < amount
  pub within : amount ≤ cap
  pub makes : IsFor (rebalance_call env op rpc bank amount) t

-- The transactions of the chunks, the last one first: the chunks are taken in order, for each there
-- are at most three, each its rebalance call, and the last ones may be left out.
pub data ChunkSends (env : Env) (op : Op) (rpc bank : Bytes) : List ℕ → List Sent → Type 0 where
  stops : {chunks : List ℕ} → ChunkSends env op rpc bank chunks []
  sends :
      {chunks : List ℕ} {later : List Sent} (amount : ℕ) (now : List Sent)
      → length now ≤ 3
      → All (IsFor (rebalance_call env op rpc bank amount)) now
      → ChunkSends env op rpc bank chunks later
      → ChunkSends env op rpc bank (amount ∷ chunks) (later ++ now)

-- From one state to the next the transactions of the chunks are sent, at most three for each, and
-- each is a part of the operation.
pub record Parts (env : Env) (op : Op) (rpc bank : Bytes) (cap : ℕ) (chunks : List ℕ) (n n' : Net)
    : Type 0 where
  pub new : List Sent
  pub extended : n'.sent ≡ new ++ n.sent
  pub few : length new ≤ 3 * length chunks
  pub parts : All (IsPart env op rpc bank cap) new
  pub in_order : ChunkSends env op rpc bank chunks new

module _ (env : Env) (op : Op) (rpc bank : Bytes) (cap : ℕ) where
  record_chunk-sent :
      (id : Bytes) (r : Result (Bytes × Logs)) (s : State)
      → (record_chunk env id r s).0.net.sent ≡ s.net.sent
  unfolding record_chunk
  record_chunk-sent id (ok (tx, logs)) s = refl
  record_chunk-sent id (err e) s = refl

  submit_chunk-Sends :
      (id : Bytes) (amount : ℕ) (s : State)
      → Sends
          (rebalance_call env op rpc bank amount)
          3
          s.net
          (submit_chunk env id op rpc bank amount s).0.net
  unfolding submit_chunk
  submit_chunk-Sends id amount s =
      let c = rebalance_call env op rpc bank amount in
      let t = submit_with_retry-Sends env.node c env.relayer_key env.relayer_address s.net in
      let (r, net) = submit_with_retry env.node c env.relayer_key env.relayer_address s.net in
      record {
        new = t.new;
        extended = rw (record_chunk-sent id r (record s { net = net })) t.extended;
        few = t.few;
        all_for = t.all_for;
      }

  IsFor-IsPart :
      (amount : ℕ) (new : List Sent)
      → (0 < amount) × (amount ≤ cap)
      → All (IsFor (rebalance_call env op rpc bank amount)) new
      → All (IsPart env op rpc bank cap) new
  IsFor-IsPart amount new h =
      All-map (IsFor (rebalance_call env op rpc bank amount)) (IsPart env op rpc bank cap)
        (λ t makes. record { amount = amount; positive = h.0; within = h.1; makes = makes }) new

  pub submit_chunks-Parts :
      (id : Bytes) (chunks : List ℕ) (s : State)
      → All (λ a. (0 < a) × (a ≤ cap)) chunks
      → Parts env op rpc bank cap chunks s.net (submit_chunks env id op rpc bank chunks s).net
  unfolding submit_chunks
  submit_chunks-Parts id [] s h = record {
    new = [];
    extended = refl;
    few = omega arith;
    parts = tt;
    in_order = stops;
  }
  submit_chunks-Parts id (a ∷ rest) s h =
      let (s', more) = submit_chunk env id op rpc bank a s in
      let one = submit_chunk-Sends id a s in
      let own = IsFor-IsPart a one.new h.0 one.all_for in
      elim (Bool-cases more) [
        | inl on ↦
            let others = submit_chunks-Parts id rest s' h.1 in
            rw on (record {
              new = others.new ++ one.new;
              extended = rw (others.extended, one.extended) (rw append_assoc);
              few = omega (arith, length-append others.new one.new, one.few, others.few);
              parts = All-append (IsPart env op rpc bank cap) others.new one.new others.parts own;
              in_order = sends a one.new one.few one.all_for others.in_order;
            })
        | inr off ↦ rw off (record {
          new = one.new;
          extended = one.extended;
          few = omega (arith, one.few);
          parts = own;
          in_order = sends a one.new one.few one.all_for stops;
        })
      ]
