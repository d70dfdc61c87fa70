-- ===== src/Auth/SystemKeys.antt =====
-- internal/domain/auth/domain.go: the keys that the system gives out. The update of the time of last use,
-- which `ValidateSystemAPIKey` starts in the background and whose error is dropped, runs at once.
use uniedit_server.Common.{
  ℕ, ℕ_Eq, ℤ, pos, le_ℤ, lt_ℤ, String, Bool, true, not, ◌==◌, if◌then◌else◌, Option, none, some,
  List, [], ◌∷◌, Service, ◌>>=◌, ◌>>◌, give, require, try, call,
}
use uniedit_server.Auth.Model.{
  SystemApiKey, is_key_expired, AuthError, system_api_key_not_found, system_api_key_disabled,
  system_api_key_expired, system_api_key_limit_exceeded, forbidden, from_port,
}
use uniedit_server.Auth.Keys.{NewKey, generate_api_key}
use uniedit_server.Auth.Ports.{Ports}

pub record CreateSystemApiKeyInput : Type 0 where
  pub name : String
  pub scopes : List String
  pub rate_limit_rpm : Option ℤ
  pub rate_limit_tpm : Option ℤ
  pub expires_in_days : Option ℤ

pub record UpdateSystemApiKeyInput : Type 0 where
  pub name : Option String
  pub scopes : List String
  pub rate_limit_rpm : Option ℤ
  pub rate_limit_tpm : Option ℤ
  pub is_active : Option Bool

pub record SystemApiKeyCreateResult : Type 0 where
  pub key : SystemApiKey
  pub raw_api_key : String

abbrev positive_or : ℤ → Option ℤ → ℤ
positive_or z none = z
positive_or z (some n) = if lt_ℤ (pos 0) n then n else z

abbrev or_else {ℓ} : {A : Type ℓ} → Option A → A → A
or_else none a = a
or_else (some b) a = b

abbrev nonempty_or : List String → List String → List String
nonempty_or [] old = old
nonempty_or (s ∷ scopes) old = s ∷ scopes

abbrev pub new_system_key : ℕ → ℕ → ℕ → CreateSystemApiKeyInput → NewKey → SystemApiKey
new_system_key new_id now user_id input k = record {
  id = new_id;
  user_id = user_id;
  name = input.name;
  key_hash = k.key_hash;
  key_prefix = k.key_prefix;
  scopes = input.scopes;
  rate_limit_rpm = positive_or (pos 60) input.rate_limit_rpm;
  rate_limit_tpm = positive_or (pos 100000) input.rate_limit_tpm;
  is_active = true;
  last_used_at = none;
  expires_at = none;
  created_at = now;
  updated_at = now;
}

abbrev pub updated_key : UpdateSystemApiKeyInput → SystemApiKey → SystemApiKey
updated_key input key = record key {
  name = or_else input.name key.name;
  scopes = nonempty_or input.scopes key.scopes;
  rate_limit_rpm = or_else input.rate_limit_rpm key.rate_limit_rpm;
  rate_limit_tpm = or_else input.rate_limit_tpm key.rate_limit_tpm;
  is_active = or_else input.is_active key.is_active;
}

abbrev pub rotated_key : NewKey → SystemApiKey → SystemApiKey
rotated_key k key = record key { key_hash = k.key_hash; key_prefix = k.key_prefix }

module _ {W : Type 0} (d : Ports W) where
  -- `id` is the text of the UUID of the new key, and `limit` `maxAPIKeysPerUser`.
  unfoldable pub create_system_api_key :
      ℤ
      → String
      → ℕ
      → ℕ
      → ℕ
      → CreateSystemApiKeyInput
      → Service W AuthError SystemApiKeyCreateResult
  create_system_api_key limit id new_id now user_id input = do
    count ← call from_port (d.count_by_user user_id)
    require (not (le_ℤ limit count)) system_api_key_limit_exceeded
    let k = generate_api_key d.hash_api_key id
    call from_port (d.create_system_key (new_system_key new_id now user_id input k))
    give (record { key = new_system_key new_id now user_id input k; raw_api_key = k.raw_key })

  -- The key, if it is the user's.
  unfoldable pub get_system_api_key : ℕ → ℕ → Service W AuthError SystemApiKey
  get_system_api_key user_id key_id = do
    key ← call from_port (d.get_system_key key_id)
    require (key.user_id == user_id) forbidden
    give key

  unfoldable pub update_system_api_key :
      ℕ → ℕ → UpdateSystemApiKeyInput → Service W AuthError SystemApiKey
  update_system_api_key user_id key_id input = do
    key ← get_system_api_key user_id key_id
    call from_port (d.update_system_key (updated_key input key))
    give (updated_key input key)

  unfoldable pub delete_system_api_key : ℕ → ℕ → Service W AuthError (Unit {0})
  delete_system_api_key user_id key_id = do
    key ← get_system_api_key user_id key_id
    call from_port (d.delete_system_key key_id)

  unfoldable pub rotate_system_api_key :
      String → ℕ → ℕ → Service W AuthError SystemApiKeyCreateResult
  rotate_system_api_key id user_id key_id = do
    key ← get_system_api_key user_id key_id
    let k = generate_api_key d.hash_api_key id
    call from_port (d.update_system_key (rotated_key k key))
    give (record { key = rotated_key k key; raw_api_key = k.raw_key })

  unfoldable pub validate_system_api_key : ℕ → String → Service W AuthError SystemApiKey
  validate_system_api_key now api_key = do
    key ← call (λ e. system_api_key_not_found) (d.get_system_key_by_hash (d.hash_api_key api_key))
    require key.is_active system_api_key_disabled
    require (not (is_key_expired now key)) system_api_key_expired
    used ← try (d.use_system_key key.id)
    give key
