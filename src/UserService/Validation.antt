-- ===== src/UserService/Validation.antt =====
-- services/user-service/src/domain/validation.rs and domain/errors.rs. The classes of the two patterns
-- are of ASCII characters, so a text that matches has a byte for each character.
use web_3_bank.Prelude.{
  ℕ, Bool, true, false, ◌&&◌, ◌||◌, [], ◌∷◌, leb, ◌==◌, if◌then◌else◌, Bytes, length,
}

pub data DomainError : Type 0 where
  last_active_credential credential_not_found user_not_found already_exists : DomainError
  invalid_tempo_address invalid_username username_taken : DomainError
  infrastructure : Bytes → DomainError

pub data Result (E A : Type 0) : Type 0 where
  ok : A → Result E A
  err : E → Result E A

between : ℕ → ℕ → ℕ → Bool
between low high c = leb low c && leb c high

all_of : (ℕ → Bool) → Bytes → Bool
all_of test [] = true
all_of test (c ∷ cs) = test c && all_of test cs

-- `[0-9a-fA-F]`
unfoldable pub is_hex : ℕ → Bool
unfolding between
is_hex c = between b'0' b'9' c || (between b'a' b'f' c || between b'A' b'F' c)

-- `^0x[0-9a-fA-F]{40}$`
unfoldable pub valid_tempo_address : Bytes → Bool
unfolding is_hex all_of
valid_tempo_address [] = false
valid_tempo_address (a ∷ []) = false
valid_tempo_address (a ∷ b ∷ cs) =
    (a == b'0') && ((b == b'x') && ((length cs == 40) && all_of is_hex cs))

is_letter : ℕ → Bool
unfolding between
is_letter c = between b'a' b'z' c || between b'A' b'Z' c

is_handle_char : ℕ → Bool
unfolding is_letter between
is_handle_char c = is_letter c || (between b'0' b'9' c || c == b'_')

-- `^[a-zA-Z][a-zA-Z0-9_]{2,19}$`
unfoldable pub valid_username : Bytes → Bool
unfolding is_letter is_handle_char all_of
valid_username [] = false
valid_username (c ∷ cs) =
    is_letter c && (leb 2 (length cs) && (leb (length cs) 19 && all_of is_handle_char cs))

-- `TempoAddress::try_from`; a value is its text.
unfoldable pub tempo_address_of : Bytes → Result DomainError Bytes
unfolding valid_tempo_address
tempo_address_of text = if valid_tempo_address text then ok text else err invalid_tempo_address

-- `Username::try_from`
unfoldable pub username_of : Bytes → Result DomainError Bytes
unfolding valid_username
username_of text = if valid_username text then ok text else err invalid_username
