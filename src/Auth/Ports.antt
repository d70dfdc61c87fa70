-- ===== src/Auth/Ports.antt =====
-- internal/port/outbound/auth.go: what the service asks of the world `W`, and of the user service.
use uniedit_server.Common.{ℕ, ℤ, String, Option, Result, Port, Service}
use uniedit_server.User.Model.{User, UserError}
use uniedit_server.Auth.Model.{RefreshToken, UserApiKey, SystemApiKey}

-- What the service reads of `OAuthUserInfo`.
pub record OAuthUserInfo : Type 0 where
  pub email : String

pub record OAuthClient (W : Type 0) : Type 0 where
  pub get_auth_url : String → String
  pub exchange : String → Port W String
  pub get_user_info : String → Port W OAuthUserInfo

-- A generated token with its hash and expiry.
pub record GeneratedToken : Type 0 where
  pub token : String
  pub hash : String
  pub expires_at : ℕ

pub record Ports (W : Type 0) : Type 0 where
  pub get_user : ℕ → Service W UserError User
  pub get_user_by_email : String → Service W UserError User
  pub create_token : RefreshToken → Port W (Unit {0})
  pub get_token_by_hash : String → Port W RefreshToken
  pub revoke : ℕ → Port W (Unit {0})
  pub revoke_all_for_user : ℕ → Port W (Unit {0})
  pub create_user_key : UserApiKey → Port W (Unit {0})
  pub get_user_key : ℕ → Port W UserApiKey
  pub get_by_user_and_provider : ℕ → String → Port W (Option UserApiKey)
  pub update_user_key : UserApiKey → Port W (Unit {0})
  pub use_user_key : ℕ → Port W (Unit {0})
  pub delete_user_key : ℕ → Port W (Unit {0})
  pub create_system_key : SystemApiKey → Port W (Unit {0})
  pub get_system_key : ℕ → Port W SystemApiKey
  pub get_system_key_by_hash : String → Port W SystemApiKey
  pub update_system_key : SystemApiKey → Port W (Unit {0})
  pub use_system_key : ℕ → Port W (Unit {0})
  pub delete_system_key : ℕ → Port W (Unit {0})
  pub count_by_user : ℕ → Port W ℤ
  pub oauth_registry : String → Result String (OAuthClient W)
  pub set_state : String → String → Port W (Unit {0})
  pub get_state : String → Port W String
  pub delete_state : String → Port W (Unit {0})
  pub generate_access_token : ℕ → String → Port W (String × ℕ)
  pub generate_refresh_token : Port W GeneratedToken
  pub hash_refresh_token : String → String
  pub access_token_expiry : ℕ
  pub encrypt : String → Port W String
  pub decrypt : String → Port W String
  pub hash_api_key : String → String
