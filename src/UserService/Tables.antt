-- ===== src/UserService/Tables.antt =====
-- The tables of services/user-service, and what the statements of db/users.rs and db/credentials.rs
-- do to their rows. Identifiers are numbers, and times those of the database.
use web_3_bank.Prelude.{
  ℕ, suc, Bool, true, false, ◌&&◌, ◌||◌, Option, none, some, List, [], ◌∷◌, ◌++◌, leb, ◌+◌, ◌==◌,
  if◌then◌else◌, Bytes, ◌===◌,
}

pub record UserRow : Type 0 where
  pub id : ℕ
  pub display_name : Bytes
  pub username : Option Bytes
  pub status : Bytes
  pub home_chain : Option ℕ

pub record CredentialRow : Type 0 where
  pub user_id : ℕ
  pub credential_id : Bytes
  pub public_key : Bytes
  pub tempo_address : Bytes
  pub revoked_at : Option ℕ
  pub created_at : ℕ

-- A row of users.home_chain_audit.
pub record AuditRow : Type 0 where
  pub tempo_address : Bytes
  pub previous_chain : Option ℕ
  pub new_chain : ℕ
  pub operator : Bytes

pub record Db : Type 0 where
  pub tick : ℕ
  pub users : List UserRow
  pub credentials : List CredentialRow
  pub audit : List AuditRow

-- `revoked_at IS NULL`
abbrev pub is_active : CredentialRow → Bool
is_active c = elim c.revoked_at [ none ↦ true | some t ↦ false ]

unfoldable pub find_user : ℕ → List UserRow → Option UserRow
find_user id [] = none
find_user id (u ∷ users) = if u.id == id then some u else find_user id users

-- `UPDATE users.users SET .. WHERE id = ..`
unfoldable pub update_user_row : ℕ → (UserRow → UserRow) → List UserRow → List UserRow
update_user_row id f [] = []
update_user_row id f (u ∷ users) = (if u.id == id then f u else u) ∷ update_user_row id f users

-- `LOWER(..)` on ASCII.
lower_char : ℕ → ℕ
lower_char c = if leb b'A' c && leb c b'Z' then c + 32 else c

unfoldable pub lower : Bytes → Bytes
unfolding lower_char
lower [] = []
lower (c ∷ cs) = lower_char c ∷ lower cs

unfoldable pub same_handle : Bytes → Option Bytes → Bool
unfolding lower
same_handle name none = false
same_handle name (some other) = lower other === lower name

-- Whether another user has the name, in any case of its letters.
unfoldable pub handle_taken : ℕ → Bytes → List UserRow → Bool
unfolding same_handle
handle_taken id name [] = false
handle_taken id name (u ∷ users) =
    (same_handle name u.username && (if u.id == id then false else true))
    || handle_taken id name users

-- `UNIQUE` on the credential's identifier and on its address.
unfoldable pub credential_taken : Bytes → Bytes → List CredentialRow → Bool
credential_taken id address [] = false
credential_taken id address (c ∷ cs) =
    (c.credential_id === id) || ((c.tempo_address === address) || credential_taken id address cs)

-- `WHERE tempo_address = $1 AND revoked_at IS NULL`
unfoldable pub active_at : Bytes → List CredentialRow → Option CredentialRow
active_at address [] = none
active_at address (c ∷ cs) =
    if (c.tempo_address === address) && is_active c then some c else active_at address cs

-- `WHERE credential_id = $1`
unfoldable pub find_credential : Bytes → List CredentialRow → Option CredentialRow
find_credential id [] = none
find_credential id (c ∷ cs) = if c.credential_id === id then some c else find_credential id cs

-- `SELECT id .. WHERE user_id = $1 AND revoked_at IS NULL`, counted.
unfoldable pub active_count : ℕ → List CredentialRow → ℕ
active_count user [] = 0
active_count user (c ∷ cs) =
    let rest = active_count user cs in if (c.user_id == user) && is_active c then suc rest else rest

-- `WHERE user_id = $1 AND credential_id = $2 AND revoked_at IS NULL`
abbrev pub is_revoked_by : ℕ → Bytes → CredentialRow → Bool
is_revoked_by user id c = (c.user_id == user) && ((c.credential_id === id) && is_active c)

unfoldable pub revoke_rows : ℕ → Bytes → ℕ → List CredentialRow → List CredentialRow
revoke_rows user id now [] = []
revoke_rows user id now (c ∷ cs) =
    (if is_revoked_by user id c then record c { revoked_at = some now } else c)
    ∷ revoke_rows user id now cs

-- `rows_affected` of the update.
unfoldable pub revoked_count : ℕ → Bytes → List CredentialRow → ℕ
revoked_count user id [] = 0
revoked_count user id (c ∷ cs) =
    let rest = revoked_count user id cs in if is_revoked_by user id c then suc rest else rest

-- `WHERE user_id = $1 ORDER BY created_at ASC`; the rows stand with the last created first.
unfoldable pub credentials_of : ℕ → List CredentialRow → List CredentialRow
credentials_of user [] = []
credentials_of user (c ∷ cs) =
    let before = credentials_of user cs in if c.user_id == user then before ++ (c ∷ []) else before
