-- ===== src/Auth/Model.antt =====
-- internal/model/auth.go: refresh tokens, the keys of users and of the system, with the errors of
-- internal/domain/auth/errors.go. The statistics of a key of the system, which the service does not
-- read, are left out.
use uniedit_server.Common.{
  ℕ, ℤ, ltb, String, String_Eq, ◌==◌, Bool, true, false, not, ◌&&◌, any, Option, none, some, List,
}

-- `other s` is a string that is none of the constants.
pub data OAuthProvider : Type 0 where
  github google : OAuthProvider
  other : String → OAuthProvider

abbrev pub provider_name : OAuthProvider → String
provider_name github = "github"
provider_name google = "google"
provider_name (other s) = s

unfoldable pub is_valid_provider : OAuthProvider → Bool
is_valid_provider github = true
is_valid_provider google = true
is_valid_provider (other s) = false

pub record RefreshToken : Type 0 where
  pub id : ℕ
  pub user_id : ℕ
  pub token_hash : String
  pub expires_at : ℕ
  pub created_at : ℕ
  pub revoked_at : Option ℕ
  pub user_agent : String
  pub ip_address : String

-- `IsExpired`, at the time `now`.
unfoldable pub is_expired : ℕ → RefreshToken → Bool
is_expired now t = ltb t.expires_at now

unfoldable pub is_revoked : RefreshToken → Bool
is_revoked t = elim t.revoked_at [ none ↦ false | some r ↦ true ]

unfoldable pub is_valid : ℕ → RefreshToken → Bool
is_valid now t = not (is_expired now t) && not (is_revoked t)

pub record UserApiKey : Type 0 where
  pub id : ℕ
  pub user_id : ℕ
  pub provider : String
  pub name : String
  pub encrypted_key : String
  pub key_prefix : String
  pub scopes : List String
  pub last_used_at : Option ℕ
  pub created_at : ℕ
  pub updated_at : ℕ

pub record SystemApiKey : Type 0 where
  pub id : ℕ
  pub user_id : ℕ
  pub name : String
  pub key_hash : String
  pub key_prefix : String
  pub scopes : List String
  pub rate_limit_rpm : ℤ
  pub rate_limit_tpm : ℤ
  pub is_active : Bool
  pub last_used_at : Option ℕ
  pub expires_at : Option ℕ
  pub created_at : ℕ
  pub updated_at : ℕ

unfoldable pub is_key_expired : ℕ → SystemApiKey → Bool
is_key_expired now k = elim k.expires_at [ none ↦ false | some t ↦ ltb t now ]

unfoldable pub is_key_valid : ℕ → SystemApiKey → Bool
is_key_valid now k = k.is_active && not (is_key_expired now k)

unfoldable pub has_scope : SystemApiKey → String → Bool
has_scope k scope = any (λ s. s == scope) k.scopes

pub record TokenPair : Type 0 where
  pub access_token : String
  pub refresh_token : String
  pub token_type : String
  pub expires_in : ℕ
  pub expires_at : ℕ

pub data AuthError : Type 0 where
  invalid_token expired_token revoked_token : AuthError
  invalid_oauth_provider invalid_oauth_code invalid_oauth_state oauth_failed : AuthError
  api_key_already_exists decryption_failed encryption_failed : AuthError
  system_api_key_not_found system_api_key_disabled system_api_key_expired : AuthError
  system_api_key_limit_exceeded invalid_api_key_scope forbidden : AuthError
  user_not_created : AuthError
  from_port : String → AuthError
  from_user : AuthError
