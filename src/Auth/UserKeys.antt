-- ===== src/Auth/UserKeys.antt =====
-- internal/domain/auth/domain.go: the keys of other providers that a user stores.
use uniedit_server.Common.{
  ℕ, ℕ_Eq, String, Bool, true, false, not, ◌==◌, Option, none, some, Result, ok, List, Service,
  ◌>>=◌, ◌>>◌, give, require, try, call, deref,
}
use uniedit_server.Auth.Model.{
  UserApiKey, AuthError, api_key_already_exists, encryption_failed, decryption_failed, forbidden,
  from_port,
}
use uniedit_server.Auth.Keys.{get_key_prefix}
use uniedit_server.Auth.Ports.{Ports}

pub record CreateUserApiKeyInput : Type 0 where
  pub provider : String
  pub name : String
  pub api_key : String
  pub scopes : List String

-- `err == nil && existing != nil`.
abbrev pub is_there : Result String (Option UserApiKey) → Bool
is_there (ok (some k)) = true
is_there _ = false

abbrev pub new_user_key : ℕ → ℕ → ℕ → CreateUserApiKeyInput → String → UserApiKey
new_user_key new_id now user_id input encrypted = record {
  id = new_id;
  user_id = user_id;
  provider = input.provider;
  name = input.name;
  encrypted_key = encrypted;
  key_prefix = get_key_prefix input.api_key 7;
  scopes = input.scopes;
  last_used_at = none;
  created_at = now;
  updated_at = now;
}

module _ {W : Type 0} (d : Ports W) where
  unfoldable pub create_user_api_key :
      ℕ → ℕ → ℕ → CreateUserApiKeyInput → Service W AuthError UserApiKey
  create_user_api_key new_id now user_id input = do
    existing ← try (d.get_by_user_and_provider user_id input.provider)
    require (not (is_there existing)) api_key_already_exists
    encrypted ← call (λ e. encryption_failed) (d.encrypt input.api_key)
    call from_port (d.create_user_key (new_user_key new_id now user_id input encrypted))
    give (new_user_key new_id now user_id input encrypted)

  -- The key, if it is the user's.
  unfoldable pub own_user_key : ℕ → ℕ → Service W AuthError UserApiKey
  own_user_key user_id key_id = do
    key ← call from_port (d.get_user_key key_id)
    require (key.user_id == user_id) forbidden
    give key

  unfoldable pub delete_user_api_key : ℕ → ℕ → Service W AuthError (Unit {0})
  delete_user_api_key user_id key_id = do
    key ← own_user_key user_id key_id
    call from_port (d.delete_user_key key_id)

  unfoldable pub get_decrypted_api_key : ℕ → String → Service W AuthError String
  get_decrypted_api_key user_id provider = do
    found ← call from_port (d.get_by_user_and_provider user_id provider)
    key ← deref found
    used ← try (d.use_user_key key.id)
    call (λ e. decryption_failed) (d.decrypt key.encrypted_key)

  unfoldable pub rotate_user_api_key : ℕ → ℕ → String → Service W AuthError UserApiKey
  rotate_user_api_key user_id key_id new_key = do
    key ← own_user_key user_id key_id
    encrypted ← call (λ e. encryption_failed) (d.encrypt new_key)
    let new = record key { encrypted_key = encrypted; key_prefix = get_key_prefix new_key 7 }
    call from_port (d.update_user_key new)
    give new
