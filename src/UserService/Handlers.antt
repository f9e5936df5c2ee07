-- ===== src/UserService/Handlers.antt =====
-- The handlers of services/user-service/src/grpc/user_service.rs.
use web_3_bank.Prelude.{
  ℕ, ◌^◌, Option, none, some, List, [], ◌∷◌, map, ltb, if◌then◌else◌, Bool, true, false, Bytes,
  codes, ◌===◌,
}
use web_3_bank.Eth.Csv.{trim}
use web_3_bank.UserService.Validation.{Result, ok, err, tempo_address_of, username_of}
use web_3_bank.UserService.Tables.{UserRow, CredentialRow, Db}
use web_3_bank.UserService.Queries.{
  Env, Query, insert_user, insert_credential, get_by_id, update_display_name, set_username_row,
  get_user_at, get_user_of, get_user_named, list_credentials_of, revoke, get_home_chain,
  set_home_chain_if_unset, set_home_chain_for_decommission,
}
use web_3_bank.UserService.Replies.{
  Status, M, ◌>>=◌, ◌>>◌, lift, map_err, query, ok_or, ListedCredential, Reply, Request, is_revoked,
  profile_of, credential_profile, user_profile, parse_user_id, not_found, invalid_argument,
  internal, permission_denied, created, profile, listed, added, revoked, home_chain, home_chain_set,
  create_user, get_user_by_address, get_user_by_credential_id, list_credentials, add_credential,
  update_user, set_username, get_user_by_username, revoke_credential, get_user_home_chain,
  set_user_home_chain,
}

module _ (env : Env) where
  -- The user's row, or the error that there is none.
  unfoldable pub require_user : ℕ → M UserRow
  require_user id = do
    found ← query env (get_by_id id)
    lift (ok_or found (not_found (codes "user not found")))

  unfoldable pub handle_create_user : Option Bytes → Bytes → Bytes → Bytes → M Reply
  handle_create_user name id key address = do
    checked ← lift (map_err (tempo_address_of address))
    user ← query env (insert_user env name)
    query env (insert_credential env user id key checked)
    lift (ok (created (env.uuid_text user)))

  unfoldable pub handle_get_user_by_address : Bytes → M Reply
  handle_get_user_by_address address = do
    checked ← lift (map_err (tempo_address_of address))
    found ← query env (get_user_at checked)
    row ← lift (ok_or found (not_found (codes "user not found for given tempo_address")))
    lift (ok (profile (profile_of env row)))

  unfoldable pub handle_get_user_by_credential_id : Bytes → M Reply
  handle_get_user_by_credential_id id = do
    found ← query env (get_user_of id)
    row ← lift (ok_or found (not_found (codes "user not found for given credential_id")))
    lift (ok (profile (credential_profile env row)))

  unfoldable pub listed_credential : CredentialRow → ListedCredential
  listed_credential c = record {
    credential_id = env.base64 c.credential_id;
    tempo_address = c.tempo_address;
    created_at = env.rfc3339 c.created_at;
    revoked = is_revoked c.revoked_at;
  }

  unfoldable pub handle_list_credentials : Bytes → M Reply
  unfolding listed_credential
  handle_list_credentials user_id = do
    user ← parse_user_id env user_id
    rows ← query env (list_credentials_of user)
    lift (ok (listed (map listed_credential rows)))

  unfoldable pub handle_add_credential : Bytes → Bytes → Bytes → Bytes → M Reply
  unfolding require_user
  handle_add_credential user_id id key address = do
    user ← parse_user_id env user_id
    require_user user
    checked ← lift (map_err (tempo_address_of address))
    query env (insert_credential env user id key checked)
    lift (ok (added (env.base64 id)))

  unfoldable pub rename : ℕ → UserRow → Option Bytes → M Reply
  unfolding require_user
  rename id user none = lift (ok (profile (user_profile env user)))
  rename id user (some name) = do
    query env (update_display_name id name)
    updated ← require_user id
    lift (ok (profile (user_profile env updated)))

  unfoldable pub handle_update_user : Bytes → Option Bytes → M Reply
  unfolding require_user rename
  handle_update_user user_id name = do
    id ← lift (ok_or (env.parse_uuid user_id) (invalid_argument (codes "invalid user_id")))
    user ← require_user id
    rename id user name

  unfoldable pub handle_set_username : Bytes → Bytes → M Reply
  unfolding require_user
  handle_set_username user_id name = do
    id ← parse_user_id env user_id
    checked ← lift (map_err (username_of name))
    require_user id
    query env (set_username_row id checked)
    found ← query env (get_user_named checked)
    row ← lift (ok_or found (internal (codes "user has no active credential after set_username")))
    lift (ok (profile (profile_of env row)))

  unfoldable pub handle_get_user_by_username : Bytes → M Reply
  handle_get_user_by_username name = do
    checked ← lift (map_err (username_of name))
    found ← query env (get_user_named checked)
    row ← lift (ok_or found (not_found (codes "user not found for given username")))
    lift (ok (profile (profile_of env row)))

  unfoldable pub handle_revoke_credential : Bytes → Bytes → M Reply
  handle_revoke_credential user_id id = do
    user ← parse_user_id env user_id
    query env (revoke env user id)
    lift (ok revoked)

  -- A chain is stored as `i64`; a negative one, from 2^63 on as `u64`, reads as none.
  unfoldable pub home_reply : Option ℕ → Reply
  home_reply none = home_chain false 0
  home_reply (some chain) = if ltb chain (2 ^ 63) then home_chain true chain else home_chain false 0

  unfoldable pub handle_get_user_home_chain : Bytes → M Reply
  unfolding home_reply
  handle_get_user_home_chain address = do
    checked ← lift (map_err (tempo_address_of address))
    home ← query env (get_home_chain checked)
    lift (ok (home_reply home))

  -- `decommission_override_denial`, with the token of the request's metadata.
  unfoldable pub denial : Option Bytes → Option Bytes → Option Bytes
  denial none provided = some (codes "decommission home-chain override is not configured")
  denial (some expected) none = some (codes "invalid decommission orchestrator token")
  denial (some expected) (some token) =
      if token === expected then none else some (codes "invalid decommission orchestrator token")

  -- The guard of the override.
  unfoldable pub allowed : Bool → Option Bytes → Result Status (Unit {0})
  unfolding denial
  allowed false token = ok tt
  allowed true token = elim (denial env.decommission_orchestrator_token token) [
    | none ↦ ok tt
    | some message ↦ err (permission_denied message)
  ]

  unfoldable pub operator_of : Bytes → Bytes
  operator_of operator = elim (trim operator) [
    | [] ↦ codes "treasury-decommission-orchestrator"
    | c ∷ cs ↦ c ∷ cs
  ]

  unfoldable pub set_home : Bool → Bytes → ℕ → Bytes → Query (Unit {0})
  unfolding operator_of
  set_home true address chain operator =
      set_home_chain_for_decommission address chain (operator_of operator)
  set_home false address chain operator = set_home_chain_if_unset address chain

  unfoldable pub handle_set_user_home_chain : Option Bytes → Bytes → ℕ → Bool → Bytes → M Reply
  unfolding allowed set_home
  handle_set_user_home_chain token address chain override operator = do
    lift (allowed override token)
    checked ← lift (map_err (tempo_address_of address))
    query env (set_home override checked chain operator)
    lift (ok home_chain_set)

  -- The service: one handler for each request.
  unfoldable pub handle : Request → M Reply
  unfolding handle_create_user handle_get_user_by_address handle_get_user_by_credential_id
      handle_list_credentials handle_add_credential handle_update_user handle_set_username
      handle_get_user_by_username handle_revoke_credential handle_get_user_home_chain
      handle_set_user_home_chain
  handle (create_user name id key address) = handle_create_user name id key address
  handle (get_user_by_address address) = handle_get_user_by_address address
  handle (get_user_by_credential_id id) = handle_get_user_by_credential_id id
  handle (list_credentials user_id) = handle_list_credentials user_id
  handle (add_credential user_id id key address) = handle_add_credential user_id id key address
  handle (update_user user_id name) = handle_update_user user_id name
  handle (set_username user_id name) = handle_set_username user_id name
  handle (get_user_by_username name) = handle_get_user_by_username name
  handle (revoke_credential user_id id) = handle_revoke_credential user_id id
  handle (get_user_home_chain address) = handle_get_user_home_chain address
  handle (set_user_home_chain token address chain override operator) =
      handle_set_user_home_chain token address chain override operator

unfoldable pub serve : Env → List Request → Db → Db
unfolding handle
serve env [] db = db
serve env (request ∷ requests) db = serve env requests (handle env request db).1
