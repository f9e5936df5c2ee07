-- ===== src/Tests/Serving.antt =====
-- The user service at a database that answers every query.
use web_3_bank.Prelude.{
  ◌≡◌, ◌≤◌, ◌+◌, refl, none, some, map, List, [], ◌∷◌, ◌===◌, Bytes, codes, arith,
}
use web_3_bank.UserService.Validation.{tempo_address_of}
use web_3_bank.UserService.Tables.{Db, active_count, find_credential}
use web_3_bank.UserService.Queries.{Env, insert_user, insert_credential, revoke}
use web_3_bank.UserService.Replies.{Request, create_user, add_credential, revoke_credential}
use web_3_bank.UserService.Handlers.{serve}
use web_3_bank.UserService.Active.{serve-HasActive}

abbrev env : Env
env = record {
  refusal = λ t. none;
  gen_random_uuid = λ t. 99 + t;
  now = λ t. t;
  parse_uuid = λ text. some 100;
  uuid_text = λ id. codes "100";
  rfc3339 = λ t. codes "now";
  base64 = λ bs. bs;
  decommission_orchestrator_token = none;
}

abbrev empty : Db
empty = record { tick = 0; users = []; credentials = []; audit = [] }

abbrev first_address : Bytes
first_address = codes "0x00112233445566778899aabbccddeeff00112233"

abbrev second_address : Bytes
second_address = codes "0x00112233445566778899aabbccddeeff00112244"

abbrev created : Db
created = serve env (create_user none (codes "one") (codes "key") first_address ∷ []) empty

created_one : active_count 100 created.credentials ≡ 1
unfolding serve active_count tempo_address_of insert_user insert_credential
created_one = refl

abbrev requests : List Request
requests =
    add_credential (codes "100") (codes "two") (codes "key") second_address
    ∷ revoke_credential (codes "100") (codes "one")
    ∷ revoke_credential (codes "100") (codes "two")
    ∷ []

serve-HasActive_example : 1 ≤ active_count 100 (serve env requests created).credentials
unfolding serve tempo_address_of insert_user insert_credential find_credential
serve-HasActive_example =
    serve-HasActive env 100 requests created (refl, tt) (omega (arith, created_one))

-- The second credential was added and the first revoked; the second stays.
served : map (λ c. c.revoked_at) (serve env requests created).credentials ≡ none ∷ some 5 ∷ []
unfolding serve tempo_address_of insert_user insert_credential revoke ◌===◌
served = refl
