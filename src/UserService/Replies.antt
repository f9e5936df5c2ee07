-- ===== src/UserService/Replies.antt =====
-- The messages and errors of services/user-service/src/grpc/user_service.rs, and the chain of calls in
-- which its handlers stop at the first error.
use web_3_bank.Prelude.{
  ℕ, Option, none, some, List, [], if◌then◌else◌, Bool, true, false, Bytes, codes, ◌===◌,
}
use web_3_bank.UserService.Validation.{DomainError, Result, ok, err}
use web_3_bank.UserService.Tables.{UserRow, CredentialRow, Db}
use web_3_bank.UserService.Queries.{Env, Query, ask}

pub data Status : Type 0 where
  failed_precondition not_found already_exists invalid_argument : Bytes → Status
  internal permission_denied : Bytes → Status

unfoldable pub domain_err_to_status : DomainError → Status
domain_err_to_status DomainError.last_active_credential =
    failed_precondition (codes "cannot revoke the last active credential")
domain_err_to_status DomainError.credential_not_found =
    not_found (codes "credential not found or already revoked")
domain_err_to_status DomainError.user_not_found = not_found (codes "user not found")
domain_err_to_status DomainError.already_exists =
    Status.already_exists (codes "address or credential already registered")
domain_err_to_status DomainError.invalid_tempo_address =
    invalid_argument (codes "tempo_address must be a 0x-prefixed 40-char hex string")
domain_err_to_status DomainError.invalid_username =
    invalid_argument
      (codes "username must be 3-20 chars, start with a letter, alphanumeric/underscore only")
domain_err_to_status DomainError.username_taken =
    Status.already_exists (codes "username already taken")
domain_err_to_status (DomainError.infrastructure e) = internal e

abbrev pub M : Type 0 → Type 0
M A = Db → Result Status A × Db

infixl 5 ◌>>=◌ ◌>>◌
abbrev pub ◌>>=◌ : {A B : Type 0} → M A → (A → M B) → M B
◌>>=◌ m f db = let (r, db') = m db in elim r [ ok a ↦ f a db' | err e ↦ (err e, db') ]

abbrev pub ◌>>◌ : {A B : Type 0} → M A → M B → M B
m >> k = m >>= λ _. k

abbrev pub lift : {A : Type 0} → Result Status A → M A
lift r db = (r, db)

-- `.map_err(domain_err_to_status)`
abbrev pub map_err : {A : Type 0} → Result DomainError A → Result Status A
map_err (ok a) = ok a
map_err (err e) = err (domain_err_to_status e)

-- A query of a repository.
abbrev pub query : {A : Type 0} → Env → Query A → M A
query env q db = let (r, db') = ask env q db in (map_err r, db')

-- `.ok_or_else(..)`
abbrev pub ok_or : {A : Type 0} → Option A → Status → Result Status A
ok_or none e = err e
ok_or (some a) e = ok a

-- What a reply says of a user; the texts that its handler does not give are empty.
pub record Profile : Type 0 where
  pub user_id : Bytes
  pub display_name : Bytes
  pub status : Bytes
  pub tempo_address : Bytes
  pub username : Bytes
  pub public_key : Bytes
  pub revoked : Bool

pub record ListedCredential : Type 0 where
  pub credential_id : Bytes
  pub tempo_address : Bytes
  pub created_at : Bytes
  pub revoked : Bool

pub data Reply : Type 0 where
  created : Bytes → Reply
  profile : Profile → Reply
  listed : List ListedCredential → Reply
  added : Bytes → Reply
  revoked : Reply
  home_chain : Bool → ℕ → Reply
  home_chain_set : Reply

pub data Request : Type 0 where
  create_user : Option Bytes → Bytes → Bytes → Bytes → Request
  get_user_by_address : Bytes → Request
  get_user_by_credential_id : Bytes → Request
  list_credentials : Bytes → Request
  add_credential : Bytes → Bytes → Bytes → Bytes → Request
  update_user : Bytes → Option Bytes → Request
  set_username : Bytes → Bytes → Request
  get_user_by_username : Bytes → Request
  revoke_credential : Bytes → Bytes → Request
  get_user_home_chain : Bytes → Request
  set_user_home_chain : Option Bytes → Bytes → ℕ → Bool → Bytes → Request

abbrev pub or_empty : Option Bytes → Bytes
or_empty none = []
or_empty (some b) = b

abbrev pub is_revoked : Option ℕ → Bool
is_revoked none = false
is_revoked (some t) = true

-- `UserStatus` of a row: an unknown text reads as active.
abbrev pub user_status_text : Bytes → Bytes
user_status_text s = if s === codes "inactive" then codes "inactive" else codes "active"

abbrev pub profile_of : Env → UserRow × CredentialRow → Profile
profile_of env (u, c) = record {
  user_id = env.uuid_text u.id;
  display_name = u.display_name;
  status = user_status_text u.status;
  tempo_address = c.tempo_address;
  username = or_empty u.username;
  public_key = [];
  revoked = false;
}

abbrev pub credential_profile : Env → UserRow × CredentialRow → Profile
credential_profile env (u, c) = record (profile_of env (u, c)) {
  public_key = c.public_key;
  revoked = is_revoked c.revoked_at;
}

abbrev pub user_profile : Env → UserRow → Profile
user_profile env u = record {
  user_id = env.uuid_text u.id;
  display_name = u.display_name;
  status = [];
  tempo_address = [];
  username = or_empty u.username;
  public_key = [];
  revoked = false;
}

abbrev pub parse_user_id : Env → Bytes → M ℕ
parse_user_id env text =
    lift (ok_or (env.parse_uuid text) (invalid_argument (codes "user_id must be a valid UUID")))
