-- ===== src/UserService/Steps.antt =====
-- What a handler of services/user-service/src/grpc/user_service.rs can do to the credentials.
use web_3_bank.Prelude.{
  ℕ, ◌≡◌, Bool, true, false, Bool-cases, Option-cases, inl, inr, Option, none, some, List, [], ◌∷◌,
  ◌==◌, ◌+◌, Bytes,
}
use web_3_bank.UserService.Validation.{DomainError, Result, ok, err, tempo_address_of}
use web_3_bank.UserService.Tables.{
  UserRow, CredentialRow, Db, find_user, credential_taken, active_at, active_count, revoke_rows,
  revoked_count, handle_taken,
}
use web_3_bank.UserService.Queries.{
  Env, Query, answer, insert_user, insert_credential, update_display_name, set_username_row, revoke,
  join_user, set_home_chain_if_unset, set_home_chain_for_decommission,
}
use web_3_bank.UserService.Replies.{
  Status, M, ◌>>=◌, lift, map_err, query, ok_or, Request, create_user, get_user_by_address,
  get_user_by_credential_id, list_credentials, add_credential, update_user, set_username,
  get_user_by_username, revoke_credential, get_user_home_chain, set_user_home_chain, parse_user_id,
  Profile, profile, profile_of, credential_profile,
}
use web_3_bank.UserService.Handlers.{
  require_user, handle_create_user, handle_get_user_by_address, handle_get_user_by_credential_id,
  handle_list_credentials, handle_add_credential, rename, handle_update_user, handle_set_username,
  handle_get_user_by_username, handle_revoke_credential, handle_get_user_home_chain, operator_of,
  allowed, set_home, handle_set_user_home_chain, handle, serve,
}

-- A property of the credentials that a new credential and a revocation that is let through keep.
module _ (env : Env) (Q : List CredentialRow → Type 0)
    (inserts : (row : CredentialRow) (cs : List CredentialRow)
      → credential_taken row.credential_id row.tempo_address cs ≡ false
      → Q cs
      → Q (row ∷ cs))
    (revokes : (user : ℕ) (id : Bytes) (now : ℕ) (cs : List CredentialRow)
      → (active_count user cs == 1) ≡ false
      → Q cs
      → Q (revoke_rows user id now cs)) where
  abbrev Asks : {A : Type 0} → Query A → Type 0
  Asks q = (db : Db) → Q db.credentials → Q (q db).1.credentials

  data Keeps {A : Type 0} (m : M A) : Type 0 where
    keeps : ((db : Db) → Q db.credentials → Q (m db).1.credentials) → Keeps m

  kept : {A : Type 0} {m : M A} → Keeps m → (db : Db) → Q db.credentials → Q (m db).1.credentials
  kept (keeps h) = h

  bind_result :
      {A B : Type 0} (f : A → M B) (r : Result Status A) (db : Db)
      → ((a : A) → Keeps (f a))
      → Q db.credentials
      → Q
          (elim r as (λ _. Result Status B × Db) [
            | ok a ↦ f a db
            | err e ↦ (err e, db)
          ]).1.credentials
  bind_result f (ok a) db hf h = kept (hf a) db h
  bind_result f (err e) db hf h = h

  bind-Keeps :
      {A B : Type 0} (m : M A) (f : A → M B) → Keeps m → ((a : A) → Keeps (f a)) → Keeps (m >>= f)
  bind-Keeps m f hm hf = keeps (λ db h. bind_result f (m db).0 (m db).1 hf (kept hm db h))

  lift-Keeps : {A : Type 0} (r : Result Status A) → Keeps (lift r)
  lift-Keeps r = keeps (λ db h. h)

  answer-Asks : {A : Type 0} (o : Option Bytes) (q : Query A) → Asks q → Asks (answer o q)
  answer-Asks none q hq db h = hq db h
  answer-Asks (some e) q hq db h = h

  query-Keeps : {A : Type 0} (q : Query A) → Asks q → Keeps (query env q)
  query-Keeps q hq =
      keeps (λ db h. answer-Asks (env.refusal db.tick) q hq (record db { tick = db.tick + 1 }) h)

  insert_user-Asks : (name : Option Bytes) → Asks (insert_user env name)
  unfolding insert_user
  insert_user-Asks name db h =
      elim (Option-cases (find_user (env.gen_random_uuid db.tick) db.users)) [
        | inl free ↦ rw (free, insert_user) h
        | inr (u, taken) ↦ rw (taken, insert_user) h
      ]

  insert_credential-Asks :
      (user : ℕ) (id key address : Bytes) → Asks (insert_credential env user id key address)
  unfolding insert_credential
  insert_credential-Asks user id key address db h =
      elim (Bool-cases (credential_taken id address db.credentials)) [
        | inl taken ↦ rw taken h
        | inr free ↦ elim (Option-cases (find_user user db.users)) [
          | inl nobody ↦ rw (free, nobody) h
          | inr (u, known) ↦ rw (free, known) (inserts _ db.credentials free h)
        ]
      ]

  revoke-Asks : (user : ℕ) (id : Bytes) → Asks (revoke env user id)
  unfolding revoke
  revoke-Asks user id db h = elim (Bool-cases (active_count user db.credentials == 1)) [
    | inl last ↦ rw last h
    | inr several ↦ elim (Bool-cases (revoked_count user id db.credentials == 0)) [
      | inl missing ↦ rw (several, missing) h
      | inr found ↦ rw (several, found) (revokes user id (env.now db.tick) db.credentials several h)
    ]
  ]

  set_username_row-Asks : (id : ℕ) (name : Bytes) → Asks (set_username_row id name)
  unfolding set_username_row
  set_username_row-Asks id name db h = elim (Bool-cases (handle_taken id name db.users)) [
    | inl taken ↦ rw taken h
    | inr free ↦ rw free h
  ]

  if_unset-Asks : (address : Bytes) (chain : ℕ) → Asks (set_home_chain_if_unset address chain)
  unfolding set_home_chain_if_unset
  if_unset-Asks address chain db h = elim (Option-cases (active_at address db.credentials)) [
    | inl nobody ↦ rw (nobody, set_home_chain_if_unset) h
    | inr (c, found) ↦ rw (found, set_home_chain_if_unset) h
  ]

  for_decommission-Asks :
      (address : Bytes) (chain : ℕ) (operator : Bytes)
      → Asks (set_home_chain_for_decommission address chain operator)
  unfolding set_home_chain_for_decommission
  for_decommission-Asks address chain operator db h =
      elim (Option-cases (join_user (active_at address db.credentials) db.users)) [
        | inl nobody ↦ rw (nobody, set_home_chain_for_decommission) h
        | inr ((u, c), is) ↦ rw (is, set_home_chain_for_decommission) h
      ]

  -- A query that only reads.
  reads-Keeps : {A : Type 0} (f : Db → Result DomainError A) → Keeps (query env (λ db. (f db, db)))
  reads-Keeps f = query-Keeps (λ db. (f db, db)) (λ db h. h)

  require-Keeps : (id : ℕ) → Keeps (require_user env id)
  unfolding require_user
  require-Keeps id = bind-Keeps _ _ (reads-Keeps _) (λ found. lift-Keeps _)

  create-Keeps :
      (name : Option Bytes) (id key address : Bytes)
      → Keeps (handle_create_user env name id key address)
  unfolding handle_create_user
  create-Keeps name id key address = bind-Keeps _ _ (lift-Keeps _) (λ checked.
      bind-Keeps _ _ (query-Keeps (insert_user env name) (insert_user-Asks name)) (λ user.
        bind-Keeps _ _ (query-Keeps _ (insert_credential-Asks user id key checked))
          (λ done. lift-Keeps _)))

  add-Keeps :
      (user_id id key address : Bytes) → Keeps (handle_add_credential env user_id id key address)
  unfolding handle_add_credential
  add-Keeps user_id id key address = bind-Keeps _ _ (lift-Keeps _) (λ user.
      bind-Keeps _ _ (require-Keeps user) (λ row. bind-Keeps _ _ (lift-Keeps _) (λ checked.
        bind-Keeps _ _ (query-Keeps _ (insert_credential-Asks user id key checked))
          (λ done. lift-Keeps _))))

  rename-Keeps : (id : ℕ) (user : UserRow) (name : Option Bytes) → Keeps (rename env id user name)
  unfolding rename
  rename-Keeps id user none = lift-Keeps _
  rename-Keeps id user (some name) =
      bind-Keeps _ _ (query-Keeps (update_display_name id name) (λ db h. h))
        (λ done. bind-Keeps _ _ (require-Keeps id) (λ row. lift-Keeps _))

  update-Keeps :
      (user_id : Bytes) (name : Option Bytes) → Keeps (handle_update_user env user_id name)
  unfolding handle_update_user
  update-Keeps user_id name =
      bind-Keeps _ _ (lift-Keeps _)
        (λ id. bind-Keeps _ _ (require-Keeps id) (λ user. rename-Keeps id user name))

  -- The reply about a user who must be found.
  found-Keeps :
      (found : Option (UserRow × CredentialRow)) (e : Status)
      (f : UserRow × CredentialRow → Profile)
      → Keeps (lift (ok_or found e) >>= λ row. lift (ok (profile (f row))))
  found-Keeps found e f =
      bind-Keeps (lift (ok_or found e)) (λ row. lift (ok (profile (f row)))) (lift-Keeps _)
        (λ row. lift-Keeps _)

  set_username-Keeps : (user_id name : Bytes) → Keeps (handle_set_username env user_id name)
  unfolding handle_set_username
  set_username-Keeps user_id name = bind-Keeps (parse_user_id env user_id) _ (lift-Keeps _) (λ id.
      bind-Keeps _ _ (lift-Keeps _) (λ checked. bind-Keeps _ _ (require-Keeps id) (λ row.
        bind-Keeps _ _ (query-Keeps _ (set_username_row-Asks id checked)) (λ done.
          bind-Keeps _ _ (reads-Keeps _) (λ found. found-Keeps found _ (profile_of env))))))

  revoke-Keeps : (user_id id : Bytes) → Keeps (handle_revoke_credential env user_id id)
  unfolding handle_revoke_credential
  revoke-Keeps user_id id =
      bind-Keeps _ _ (lift-Keeps _)
        (λ user. bind-Keeps _ _ (query-Keeps _ (revoke-Asks user id)) (λ done. lift-Keeps _))

  home-Asks :
      (override : Bool) (address : Bytes) (chain : ℕ) (operator : Bytes)
      → Asks (set_home env override address chain operator)
  unfolding set_home
  home-Asks true address chain operator =
      for_decommission-Asks address chain (operator_of env operator)
  home-Asks false address chain operator = if_unset-Asks address chain

  set_home-Keeps :
      (token : Option Bytes) (address : Bytes) (chain : ℕ) (override : Bool) (operator : Bytes)
      → Keeps (handle_set_user_home_chain env token address chain override operator)
  unfolding handle_set_user_home_chain
  set_home-Keeps token address chain override operator =
      bind-Keeps (lift (allowed env override token)) _ (lift-Keeps _) (λ may.
        bind-Keeps (lift (map_err (tempo_address_of address))) _ (lift-Keeps _) (λ checked.
          bind-Keeps _ _ (query-Keeps _ (home-Asks override checked chain operator))
            (λ done. lift-Keeps _)))

  handle-Keeps : (request : Request) → Keeps (handle env request)
  unfolding handle handle_get_user_by_address handle_get_user_by_credential_id
      handle_list_credentials handle_get_user_by_username handle_get_user_home_chain
  handle-Keeps (create_user name id key address) = create-Keeps name id key address
  handle-Keeps (get_user_by_address address) =
      bind-Keeps _ _ (lift-Keeps _)
        (λ checked. bind-Keeps _ _ (reads-Keeps _) (λ found. found-Keeps found _ (profile_of env)))
  handle-Keeps (get_user_by_credential_id id) =
      bind-Keeps _ _ (reads-Keeps _) (λ found. found-Keeps found _ (credential_profile env))
  handle-Keeps (list_credentials user_id) =
      bind-Keeps _ _ (lift-Keeps _) (λ user. bind-Keeps _ _ (reads-Keeps _) (λ rows. lift-Keeps _))
  handle-Keeps (add_credential user_id id key address) = add-Keeps user_id id key address
  handle-Keeps (update_user user_id name) = update-Keeps user_id name
  handle-Keeps (set_username user_id name) = set_username-Keeps user_id name
  handle-Keeps (get_user_by_username name) =
      bind-Keeps _ _ (lift-Keeps _)
        (λ checked. bind-Keeps _ _ (reads-Keeps _) (λ found. found-Keeps found _ (profile_of env)))
  handle-Keeps (revoke_credential user_id id) = revoke-Keeps user_id id
  handle-Keeps (get_user_home_chain address) =
      bind-Keeps _ _ (lift-Keeps _)
        (λ checked. bind-Keeps _ _ (reads-Keeps _) (λ home. lift-Keeps _))
  handle-Keeps (set_user_home_chain token address chain override operator) =
      set_home-Keeps token address chain override operator

  pub serve-keeps :
      (requests : List Request) (db : Db) → Q db.credentials → Q (serve env requests db).credentials
  unfolding serve
  serve-keeps [] db h = h
  serve-keeps (request ∷ requests) db h =
      serve-keeps requests (handle env request db).1 (kept (handle-Keeps request) db h)
