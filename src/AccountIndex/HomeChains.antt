-- ===== src/AccountIndex/HomeChains.antt =====
-- The requests by which services/treasury/src/account_index.rs sets the home chain of a user.
use web_3_bank.Prelude.{
  ℕ, zero, suc, ◌+◌, ◌≡◌, ◌≤◌, refl, true, false, Bool-cases, Option-cases, Option, none, some, inl,
  inr, List, [], ◌∷◌, Bytes, ◌===◌, ===→eq, if◌then◌else◌, arith,
}
use web_3_bank.AccountIndex.Events.{
  AccountEventRow, event_exists, upsert_event, is_deposited, user_has_deposit,
}
use web_3_bank.AccountIndex.Ingest.{
  Env, Push, State, uri_of, push_home_chain, should_push_home_chain, ingest_for, ingest_row,
}
use web_3_bank.AccountIndex.Index.{poll_round, poll_rounds}
use web_3_bank.AccountIndex.Rounds.{round-Holds}

-- How many requests named a user.
unfoldable pub push_count : Bytes → List Push → ℕ
push_count user [] = 0
push_count user (p ∷ pushes) =
    let rest = push_count user pushes in if p.user === user then suc rest else rest

-- At most one request for a user, and only after a deposit.
record Once (user : Bytes) (events : List AccountEventRow) (pushes : List Push) : Type 0 where
  once : push_count user pushes ≤ 1
  after : 1 ≤ push_count user pushes → user_has_deposit user events ≡ true

more-Once :
    (user : Bytes) (row : AccountEventRow) (events : List AccountEventRow) (pushes : List Push)
    → Once user events pushes
    → Once user (row ∷ events) pushes
unfolding user_has_deposit
more-Once user row events pushes h = record {
  once = h.once;
  after = λ p. rw (h.after p) (ground arith);
}

upsert-Once :
    (user : Bytes) (row : AccountEventRow) (events : List AccountEventRow) (pushes : List Push)
    → Once user events pushes
    → Once user (upsert_event row events).1 pushes
unfolding upsert_event
upsert-Once user row events pushes h = elim (Bool-cases (event_exists row events)) [
  | inl old ↦ rw old h
  | inr new ↦ rw new (more-Once user row events pushes h)
]

zero_of : (n : ℕ) → (1 ≤ n → ⊥) → n ≡ 0
zero_of zero h = refl
zero_of (suc n) h = absurd (h (omega arith))

-- A first deposit is followed by its request.
push-Once :
    (user : Bytes) (row : AccountEventRow) (to : Bytes) (events : List AccountEventRow)
    (pushes : List Push)
    → is_deposited row.event_kind ≡ true
    → row.address_to ≡ some to
    → user_has_deposit to events ≡ false
    → Once user events pushes
    → Once user (row ∷ events) (record { user = to; chain_id = row.chain_id } ∷ pushes)
unfolding user_has_deposit push_count
push-Once user row to events pushes kind address fresh h = elim (Bool-cases (to === user)) [
  | inr other ↦
      let m = more-Once user row events pushes h in
      record { once = rw other m.once; after = rw other m.after }
  | inl own ↦
      let same : to ≡ user = ===→eq to user own in
      let none_yet : push_count user pushes ≡ 0 =
        zero_of (push_count user pushes)
          (λ p. let had : user_has_deposit to events ≡ true = rw same (h.after p) in cc) in
      record { once = rw (own, none_yet) (omega arith); after = λ p. rw (kind, address, own) refl }
]

-- What is true of the user of a deposit.
abbrev IsUser : AccountEventRow → Option Bytes → Type 0
IsUser row o =
    (to : Bytes) → o ≡ some to → (is_deposited row.event_kind ≡ true) × (row.address_to ≡ some to)

module _ (env : Env) (up : (t : ℕ) → env.database_up t ≡ true) (user : Bytes) where
  abbrev OnceIn : State → Type 0
  OnceIn s = Once user s.events s.pushes

  sent-Once :
      (row : AccountEventRow) (to : Bytes) (s : State)
      → Once user s.events s.pushes
      → Once user s.events (record { user = to; chain_id = row.chain_id } ∷ s.pushes)
      → OnceIn (push_home_chain env to row.chain_id s)
  unfolding push_home_chain
  sent-Once row to s quiet sent = elim (Option-cases env.user_endpoint) [
    | inl unset ↦ rw (unset, push_home_chain) quiet
    | inr (endpoint, set) ↦ elim (Bool-cases (env.connect s.tick (uri_of endpoint))) [
      | inl reached ↦ rw (set, reached, push_home_chain) sent
      | inr away ↦ rw (set, away, push_home_chain) quiet
    ]
  ]

  for-Once :
      (row : AccountEventRow) (o : Option Bytes) (s : State)
      → IsUser row o
      → OnceIn s
      → OnceIn (ingest_for env row o s)
  unfolding ingest_for should_push_home_chain upsert_event
  for-Once row none s is h = rw (up s.tick) (upsert-Once user row s.events s.pushes h)
  for-Once row (some to) s is h =
      let (kind, address) = is to refl in
      elim (Bool-cases (event_exists row s.events)) [
        | inl old ↦ rw (up s.tick, up (s.tick + 1), old) h
        | inr new ↦
            let m = more-Once user row s.events s.pushes h in
            elim (Bool-cases (user_has_deposit to s.events)) [
              | inl had ↦ rw (up s.tick, up (s.tick + 1), new, had) m
              | inr fresh ↦
                  rw (up s.tick, up (s.tick + 1), new, fresh)
                    (sent-Once row to (record s { tick = s.tick + 1 + 1; events = row ∷ s.events })
                      m (push-Once user row to s.events s.pushes kind address fresh h))
            ]
      ]

  row-Once : (row : AccountEventRow) (s : State) → OnceIn s → OnceIn (ingest_row env row s)
  unfolding ingest_row
  row-Once row s h =
      for-Once row (if is_deposited row.event_kind then row.address_to else none) s (user_of row) h
    where
      user_of :
          (row : AccountEventRow)
          → IsUser row (if is_deposited row.event_kind then row.address_to else none)
      user_of row to e = elim (Bool-cases (is_deposited row.event_kind)) [
        | inl own ↦ (own, rw own at e)
        | inr other ↦ let no : none ≡ some to = rw other at e in cc
      ]

  rounds-Once : (n : ℕ) (s : State) → OnceIn s → OnceIn (poll_rounds n env s)
  rounds-Once zero s h = h
  rounds-Once (suc n) s h =
      rounds-Once n (poll_round env s) (round-Holds env (Once user) row-Once s h)

-- While the database answers, any number of rounds of the indexer sends the user service at most one
-- request for a user, if none was sent before.
pub poll_rounds_push_once :
    (env : Env) (user : Bytes) (n : ℕ) (s : State)
    → ((t : ℕ) → env.database_up t ≡ true)
    → push_count user s.pushes ≡ 0
    → push_count user (poll_rounds n env s).pushes ≤ 1
poll_rounds_push_once env user n s up unsent =
    (rounds-Once env up user n s
      (record { once = omega arith; after = λ p. absurd (omega arith) })).once
