-- ===== src/UserService/Active.antt =====
-- The active credentials of a user of services/user-service.
use web_3_bank.Prelude.{
  ℕ, suc, arith, ==_iff, ◌≡◌, refl, sym, Bool, true, false, Bool-cases, inl, inr, none, some, List,
  [], ◌∷◌, ◌==◌, ◌≤◌, ◌&&◌, Bytes, ◌===◌, ===→eq, if◌then◌else◌,
}
use web_3_bank.UserService.Tables.{
  CredentialRow, Db, is_active, find_credential, credential_taken, active_count, is_revoked_by,
  revoke_rows,
}
use web_3_bank.UserService.Queries.{Env}
use web_3_bank.UserService.Replies.{Request}
use web_3_bank.UserService.Handlers.{serve}
use web_3_bank.UserService.Steps.{serve-keeps}

-- Credentials with different identifiers.
abbrev pub IsUnique : List CredentialRow → Type 0
IsUnique [] = Unit
IsUnique (c ∷ cs) = (find_credential c.credential_id cs ≡ none) × IsUnique cs

taken-absent :
    (id address : Bytes) (cs : List CredentialRow)
    → credential_taken id address cs ≡ false
    → find_credential id cs ≡ none
unfolding credential_taken find_credential
taken-absent id address [] h = refl
taken-absent id address (c ∷ cs) h = elim (Bool-cases (c.credential_id === id)) [
  | inl own ↦ let no : true ≡ false = rw own at h in cc
  | inr other ↦ elim (Bool-cases (c.tempo_address === address)) [
    | inl same ↦ let no : true ≡ false = rw (other, same) at h in cc
    | inr differs ↦
        let rest : credential_taken id address cs ≡ false = rw (other, differs) at h in
        rw other (taken-absent id address cs rest)
  ]
]

-- What a revocation does to one row.
abbrev revoke_row : ℕ → Bytes → ℕ → CredentialRow → CredentialRow
revoke_row user id now c = if is_revoked_by user id c then record c { revoked_at = some now } else c

row-id :
    (user : ℕ) (id : Bytes) (now : ℕ) (c : CredentialRow)
    → (revoke_row user id now c).credential_id ≡ c.credential_id
row-id user id now c = elim (Bool-cases (is_revoked_by user id c)) [
  | inl own ↦ rw own refl
  | inr other ↦ rw other refl
]

row-user :
    (user : ℕ) (id : Bytes) (now : ℕ) (c : CredentialRow)
    → (revoke_row user id now c).user_id ≡ c.user_id
row-user user id now c = elim (Bool-cases (is_revoked_by user id c)) [
  | inl own ↦ rw own refl
  | inr other ↦ rw other refl
]

-- The row of another credential or user stays.
row-other :
    (user : ℕ) (id : Bytes) (now : ℕ) (c : CredentialRow)
    → is_revoked_by user id c ≡ false
    → revoke_row user id now c ≡ c
row-other user id now c h = rw h refl

revoke-absent :
    (i : Bytes) (user : ℕ) (id : Bytes) (now : ℕ) (cs : List CredentialRow)
    → find_credential i cs ≡ none
    → find_credential i (revoke_rows user id now cs) ≡ none
unfolding find_credential revoke_rows
revoke-absent i user id now [] h = refl
revoke-absent i user id now (c ∷ cs) h = elim (Bool-cases (c.credential_id === i)) [
  | inl own ↦ let no : some c ≡ none = rw own at h in cc
  | inr other ↦
      let rest : find_credential i cs ≡ none = rw other at h in
      rw (row-id user id now c, other) (revoke-absent i user id now cs rest)
]

revoke-IsUnique :
    (user : ℕ) (id : Bytes) (now : ℕ) (cs : List CredentialRow)
    → IsUnique cs
    → IsUnique (revoke_rows user id now cs)
unfolding revoke_rows
revoke-IsUnique user id now [] u = tt
revoke-IsUnique user id now (c ∷ cs) u = (
  rw (row-id user id now c) (revoke-absent c.credential_id user id now cs u.0),
  revoke-IsUnique user id now cs u.1,
)

-- Without the credential nothing is revoked.
revoke-none :
    (user : ℕ) (id : Bytes) (now : ℕ) (cs : List CredentialRow)
    → find_credential id cs ≡ none
    → revoke_rows user id now cs ≡ cs
unfolding find_credential revoke_rows
revoke-none user id now [] h = refl
revoke-none user id now (c ∷ cs) h = elim (Bool-cases (c.credential_id === id)) [
  | inl own ↦ let no : some c ≡ none = rw own at h in cc
  | inr other ↦
      let rest : find_credential id cs ≡ none = rw other at h in
      elim (Bool-cases (c.user_id == user)) [
        | inl mine ↦ rw (mine, other, revoke-none user id now cs rest) refl
        | inr theirs ↦ rw (theirs, revoke-none user id now cs rest) refl
      ]
]

-- A row counts for a user whom the revocation is not about.
row-count :
    (v user : ℕ) (id : Bytes) (now : ℕ) (c : CredentialRow)
    → (v == user) ≡ false
    → ((revoke_row user id now c).user_id == v) && is_active (revoke_row user id now c)
      ≡ ((c.user_id == v) && is_active c)
row-count v user id now c other = elim (Bool-cases (c.user_id == user)) [
  | inr theirs ↦ rw (theirs) refl
  | inl mine ↦
      let not_v : (c.user_id == v) ≡ false = grind arith in rw (row-user user id now c, not_v) refl
]

count-others :
    (v user : ℕ) (id : Bytes) (now : ℕ) (cs : List CredentialRow)
    → (v == user) ≡ false
    → active_count v (revoke_rows user id now cs) ≡ active_count v cs
unfolding active_count revoke_rows
count-others v user id now [] other = refl
count-others v user id now (c ∷ cs) other =
    rw (row-count v user id now c other, count-others v user id now cs other) refl

own-here :
    (user : ℕ) (id : Bytes) (c : CredentialRow)
    → is_revoked_by user id c ≡ true
    → (c.credential_id === id) ≡ true
own-here user id c h = elim (Bool-cases (c.credential_id === id)) [
  | inl here ↦ here
  | inr other ↦ elim (Bool-cases (c.user_id == user)) [
    | inl mine ↦ let no : false ≡ true = rw (mine, other) at h in cc
    | inr theirs ↦ let no : false ≡ true = rw theirs at h in cc
  ]
]

-- A row that is revoked counts no more.
one-less :
    (n : ℕ) (mine active : Bool)
    → (if mine && active then suc n else n) ≤ suc (if mine && false then suc n else n)
one-less n true true = ground arith
one-less n true false = ground arith
one-less n false active = ground arith

-- A row that stays counts as before.
one-more :
    (n m : ℕ) (counts : Bool)
    → n ≤ suc m
    → (if counts then suc n else n) ≤ suc (if counts then suc m else m)
one-more n m true h = ground arith
one-more n m false h = h

-- One revocation takes one credential at most.
count-revoke :
    (v user : ℕ) (id : Bytes) (now : ℕ) (cs : List CredentialRow)
    → IsUnique cs
    → active_count v cs ≤ suc (active_count v (revoke_rows user id now cs))
unfolding active_count revoke_rows
count-revoke v user id now [] u = ground arith
count-revoke v user id now (c ∷ cs) u = elim (Bool-cases (is_revoked_by user id c)) [
  | inl own ↦
      let here : (c.credential_id === id) ≡ true = own-here user id c own in
      let no_more : revoke_rows user id now cs ≡ cs =
        revoke-none user id now cs (rw (sym (===→eq c.credential_id id here)) u.0) in
      rw (own, no_more) (one-less (active_count v cs) (c.user_id == v) (is_active c))
  | inr kept ↦ rw kept (
      one-more (active_count v cs) (active_count v (revoke_rows user id now cs))
        ((c.user_id == v) && is_active c) (count-revoke v user id now cs u.1))
]

-- The invariant for one user.
abbrev HasActive : ℕ → List CredentialRow → Type 0
HasActive v cs = IsUnique cs × (1 ≤ active_count v cs)

insert-HasActive :
    (v : ℕ) (row : CredentialRow) (cs : List CredentialRow)
    → credential_taken row.credential_id row.tempo_address cs ≡ false
    → HasActive v cs
    → HasActive v (row ∷ cs)
unfolding active_count
insert-HasActive v row cs free (u, h) = (
  (taken-absent row.credential_id row.tempo_address cs free, u),
  elim (Bool-cases ((row.user_id == v) && is_active row)) [
    | inl counts ↦ rw counts (ground arith)
    | inr not ↦ rw not h
  ],
)

two-less : (n m : ℕ) → 1 ≤ n → (n == 1) ≡ false → n ≤ suc m → 1 ≤ m
two-less n m h more less = ground arith

revoke-HasActive :
    (v user : ℕ) (id : Bytes) (now : ℕ) (cs : List CredentialRow)
    → (active_count user cs == 1) ≡ false
    → HasActive v cs
    → HasActive v (revoke_rows user id now cs)
revoke-HasActive v user id now cs several (u, h) = (
  revoke-IsUnique user id now cs u,
  elim (Bool-cases (v == user)) [
    | inl own ↦
        let same : v ≡ user = (==_iff v user).0 own in
        let less : active_count v cs ≤ suc (active_count v (revoke_rows user id now cs)) =
          count-revoke v user id now cs u in
        let more : (active_count v cs == 1) ≡ false = rw same several in
        two-less (active_count v cs) _ h more less
    | inr other ↦ rw (count-others v user id now cs other) h
  ],
)

-- Once the credentials have different identifiers and a user has an active one, no sequence of
-- requests, whatever queries the database refuses, takes the last active credential of that user.
pub serve-HasActive :
    (env : Env) (user : ℕ) (requests : List Request) (db : Db)
    → IsUnique db.credentials
    → 1 ≤ active_count user db.credentials
    → 1 ≤ active_count user (serve env requests db).credentials
serve-HasActive env user requests db u h =
    (serve-keeps env (HasActive user) (insert-HasActive user) (revoke-HasActive user) requests db
      (u, h)).1
