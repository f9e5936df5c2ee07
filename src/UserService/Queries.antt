-- ===== src/UserService/Queries.antt =====
-- The repositories of services/user-service/src/db: each method as one query at one time, which the
-- database may refuse. A transaction is one query.
use web_3_bank.Prelude.{
  ℕ, ◌+◌, Option, none, some, List, [], ◌∷◌, ◌==◌, if◌then◌else◌, Bytes, codes,
}
use web_3_bank.UserService.Validation.{
  DomainError, last_active_credential, credential_not_found, user_not_found, already_exists,
  username_taken, infrastructure, Result, ok, err,
}
use web_3_bank.UserService.Tables.{
  UserRow, CredentialRow, AuditRow, Db, handle_taken, find_user, update_user_row, same_handle,
  credential_taken, active_at, find_credential, active_count, revoke_rows, revoked_count,
  credentials_of,
}

-- The error with which the database refuses a query at a time, its identifiers and its clock; the texts of identifiers,
-- times and bytes that the libraries read and write; and the service's token.
pub record Env : Type 0 where
  pub refusal : ℕ → Option Bytes
  pub gen_random_uuid : ℕ → ℕ
  pub now : ℕ → ℕ
  pub parse_uuid : Bytes → Option ℕ
  pub uuid_text : ℕ → Bytes
  pub rfc3339 : ℕ → Bytes
  pub base64 : Bytes → Bytes
  pub decommission_orchestrator_token : Option Bytes

abbrev pub Query : Type 0 → Type 0
Query A = Db → Result DomainError A × Db

abbrev pub answer : {A : Type 0} → Option Bytes → Query A → Query A
answer none q db = q db
answer (some e) q db = (err (infrastructure e), db)

-- A query at its time.
abbrev pub ask : {A : Type 0} → Env → Query A → Query A
ask env q db = answer (env.refusal db.tick) q (record db { tick = db.tick + 1 })

-- `PgUserRepository::insert`; `display_name.unwrap_or("")`
unfoldable pub insert_user : Env → Option Bytes → Query ℕ
unfolding find_user
insert_user env name db =
    let id = env.gen_random_uuid db.tick in
    let row : UserRow = record {
      id = id;
      display_name = elim name [ none ↦ [] | some n ↦ n ];
      username = none;
      status = codes "active";
      home_chain = none;
    } in
    elim (find_user id db.users) [
      | none ↦ (ok id, record db { users = row ∷ db.users })
      | some u ↦ (err already_exists, db)
    ]

-- `PgCredentialRepository::insert`: the unique indexes, then the foreign key.
unfoldable pub insert_credential : Env → ℕ → Bytes → Bytes → Bytes → Query (Unit {0})
unfolding credential_taken find_user
insert_credential env user id key address db =
    let row : CredentialRow = record {
      user_id = user;
      credential_id = id;
      public_key = key;
      tempo_address = address;
      revoked_at = none;
      created_at = env.now db.tick;
    } in
    if credential_taken id address db.credentials
    then (err already_exists, db)
    else elim (find_user user db.users) [
      | none ↦ (err user_not_found, db)
      | some u ↦ (ok tt, record db { credentials = row ∷ db.credentials })
    ]

abbrev pub get_by_id : ℕ → Query (Option UserRow)
get_by_id id db = (ok (find_user id db.users), db)

abbrev pub update_display_name : ℕ → Bytes → Query (Unit {0})
update_display_name id name db = (
  ok tt,
  record db { users = update_user_row id (λ u. record u { display_name = name }) db.users },
)

unfoldable pub set_username_row : ℕ → Bytes → Query (Unit {0})
unfolding handle_taken update_user_row
set_username_row id name db = if handle_taken id name db.users then (err username_taken, db) else (
  ok tt,
  record db { users = update_user_row id (λ u. record u { username = some name }) db.users },
)

-- The user of a credential, with it.
unfoldable pub join_user : Option CredentialRow → List UserRow → Option (UserRow × CredentialRow)
unfolding find_user
join_user none users = none
join_user (some c) users = elim (find_user c.user_id users) [ none ↦ none | some u ↦ some (u, c) ]

abbrev pub get_user_at : Bytes → Query (Option (UserRow × CredentialRow))
get_user_at address db = (ok (join_user (active_at address db.credentials) db.users), db)

abbrev pub get_user_of : Bytes → Query (Option (UserRow × CredentialRow))
get_user_of id db = (ok (join_user (find_credential id db.credentials) db.users), db)

-- The first active credential whose user has the name.
unfoldable pub named : Bytes → List CredentialRow → List UserRow → Option (UserRow × CredentialRow)
unfolding same_handle join_user
named name [] users = none
named name (c ∷ cs) users =
    let rest = named name cs users in
    elim c.revoked_at [
      | some t ↦ rest
      | none ↦ elim (join_user (some c) users) [
        | none ↦ rest
        | some (u, c) ↦ if same_handle name u.username then some (u, c) else rest
      ]
    ]

abbrev pub get_user_named : Bytes → Query (Option (UserRow × CredentialRow))
get_user_named name db = (ok (named name db.credentials db.users), db)

abbrev pub list_credentials_of : ℕ → Query (List CredentialRow)
list_credentials_of user db = (ok (credentials_of user db.credentials), db)

-- `PgCredentialRepository::revoke`
unfoldable pub revoke : Env → ℕ → Bytes → Query (Unit {0})
unfolding active_count revoke_rows revoked_count
revoke env user id db =
    if active_count user db.credentials == 1
    then (err last_active_credential, db)
    else (if revoked_count user id db.credentials == 0 then (err credential_not_found, db) else (
      ok tt,
      record db { credentials = revoke_rows user id (env.now db.tick) db.credentials },
    ))

unfoldable pub home_chain_at : Bytes → Db → Option ℕ
unfolding active_at join_user
home_chain_at address db = elim (join_user (active_at address db.credentials) db.users) [
  | none ↦ none
  | some (u, c) ↦ u.home_chain
]

abbrev pub get_home_chain : Bytes → Query (Option ℕ)
get_home_chain address db = (ok (home_chain_at address db), db)

-- `u.home_chain IS NULL`
abbrev pub fill_home : ℕ → UserRow → UserRow
fill_home chain u = elim u.home_chain [ none ↦ record u { home_chain = some chain } | some c ↦ u ]

unfoldable pub set_home_chain_if_unset : Bytes → ℕ → Query (Unit {0})
unfolding active_at update_user_row
set_home_chain_if_unset address chain db = elim (active_at address db.credentials) [
  | none ↦ (ok tt, db)
  | some c ↦ (ok tt, record db { users = update_user_row c.user_id (fill_home chain) db.users })
]

unfoldable pub set_home_chain_for_decommission : Bytes → ℕ → Bytes → Query (Unit {0})
unfolding active_at update_user_row join_user home_chain_at
set_home_chain_for_decommission address chain operator db =
    let row : AuditRow = record {
      tempo_address = address;
      previous_chain = home_chain_at address db;
      new_chain = chain;
      operator = operator;
    } in
    elim (join_user (active_at address db.credentials) db.users) [
      | none ↦ (err user_not_found, db)
      | some (u, c) ↦ (
        ok tt,
        record db {
          users = update_user_row u.id (λ v. record v { home_chain = some chain }) db.users;
          audit = row ∷ db.audit;
        },
      )
    ]
