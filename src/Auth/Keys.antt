-- ===== src/Auth/Keys.antt =====
-- internal/domain/auth/api_key_util.go, and the helpers of internal/domain/auth/domain.go: the text of a
-- key. Texts are in ASCII, so that a slice of bytes is one of characters.
use Prim.Native.String.{len, slice, ◌++◌ as text_append}
use text.Mathlib.Text.{starts_with}
use uniedit_server.Common.{
  ℕ, ◌+◌, leb, nat_eq, String, String_Eq, ◌==◌, if◌then◌else◌, Bool, false, not, any, List, [], ◌∷◌,
  Result, ok, err,
}
use uniedit_server.Auth.Model.{AuthError, invalid_api_key_scope}

abbrev pub api_key_prefix : String
api_key_prefix = "sk-"

abbrev pub api_key_random_length : ℕ
api_key_random_length = 48

-- `GetKeyPrefix`, and `getKeyPrefix` of the service.
unfoldable pub get_key_prefix : String → ℕ → String
get_key_prefix key length = if leb (len key) length then key else slice key 0 length

unfoldable pub is_valid_api_key_format : String → Bool
is_valid_api_key_format key =
    if not (starts_with key api_key_prefix)
    then false
    else nat_eq (len key) (len api_key_prefix + api_key_random_length)

abbrev pub all_scopes : List String
all_scopes = "chat" ∷ "image" ∷ "video" ∷ "audio" ∷ "embedding" ∷ []

-- The loop of `ValidateScopes`.
unfoldable pub validate_scopes : List String → Result AuthError (Unit {0})
validate_scopes [] = ok tt
validate_scopes (scope ∷ scopes) =
    let rest = validate_scopes scopes in
    if not (any (λ s. s == scope) all_scopes) then err invalid_api_key_scope else rest

-- A new key, its hash and its prefix; `id` is the text of a new UUID, and `hash` the SHA-256 in hex.
pub record NewKey : Type 0 where
  pub raw_key : String
  pub key_hash : String
  pub key_prefix : String

unfoldable pub generate_api_key : (String → String) → String → NewKey
generate_api_key hash id = record {
  raw_key = text_append "sk-" id;
  key_hash = hash (text_append "sk-" id);
  key_prefix = slice (text_append "sk-" id) 0 10;
}
