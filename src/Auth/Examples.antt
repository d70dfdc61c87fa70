-- ===== src/Auth/Examples.antt =====
-- One refresh token and one key of the system in memory, with texts for their own hashes.
use uniedit_server.Common.{
  ◌≡◌, ◌≢◌, ◌⊎◌, refl, ℕ_Eq, ◌==◌, if◌then◌else◌, Bool, true, false, String_Eq, [], none, some, pos,
  ok, err, returns, fails_with, arith, eq_iff,
}
use uniedit_server.User.Model.{User, active}
use uniedit_server.Auth.Model.{
  RefreshToken, is_expired, is_revoked, is_valid, UserApiKey, SystemApiKey, is_key_expired,
  is_key_valid, TokenPair, revoked_token, expired_token,
}
use uniedit_server.Auth.Keys.{generate_api_key}
use uniedit_server.Auth.Ports.{Ports}
use uniedit_server.Auth.Sessions.{
  Client, refresh_tokens, check_refresh_token, generate_token_pair, logout,
}
use uniedit_server.Auth.SystemKeys.{
  CreateSystemApiKeyInput, create_system_api_key, rotate_system_api_key, validate_system_api_key,
}
use uniedit_server.Auth.Rotation.{TokenTable, refresh_token_used_once, logout_lem}
use uniedit_server.Auth.Access.{KeyTable, created_key_validates, rotated_key_validates}

abbrev ann : User
ann = record {
  id = 5;
  email = "a@b.c";
  name = "Ann";
  avatar_url = "";
  oauth_provider = none;
  oauth_id = none;
  password_hash = none;
  status = active;
  email_verified = true;
  is_admin = false;
  suspended_at = none;
  suspend_reason = none;
  created_at = 1;
  updated_at = 1;
  deleted_at = none;
}

-- Whether the token is revoked, and the key.
abbrev World : Type 0
World = Bool × SystemApiKey

abbrev token_row : Bool → RefreshToken
token_row revoked = record {
  id = 3;
  user_id = 5;
  token_hash = "r";
  expires_at = 100;
  created_at = 1;
  revoked_at = if revoked then some 50 else none;
  user_agent = "";
  ip_address = "";
}

abbrev key : SystemApiKey
key = record {
  id = 7;
  user_id = 5;
  name = "ci";
  key_hash = "sk-old";
  key_prefix = "sk-old";
  scopes = [];
  rate_limit_rpm = pos 60;
  rate_limit_tpm = pos 100000;
  is_active = true;
  last_used_at = none;
  expires_at = none;
  created_at = 1;
  updated_at = 1;
}

abbrev stored_key : UserApiKey
stored_key = record {
  id = 8;
  user_id = 5;
  provider = "openai";
  name = "mine";
  encrypted_key = "x";
  key_prefix = "sk-abc";
  scopes = [];
  last_used_at = none;
  created_at = 1;
  updated_at = 1;
}

abbrev memory : Ports World
memory = record {
  get_user = λ id w. (returns ann, w);
  get_user_by_email = λ email w. (returns ann, w);
  create_token = λ t w. (ok tt, w);
  get_token_by_hash = λ h w. (ok (token_row w.0), w);
  revoke = λ id w. (ok tt, (true, w.1));
  revoke_all_for_user = λ id w. (ok tt, (true, w.1));
  create_user_key = λ k w. (ok tt, w);
  get_user_key = λ id w. (ok stored_key, w);
  get_by_user_and_provider = λ u p w. (ok (some stored_key), w);
  update_user_key = λ k w. (ok tt, w);
  use_user_key = λ id w. (ok tt, w);
  delete_user_key = λ id w. (ok tt, w);
  create_system_key = λ k w. (ok tt, (w.0, k));
  get_system_key = λ id w. (ok w.1, w);
  get_system_key_by_hash = λ h w. (if w.1.key_hash == h then ok w.1 else err "no key", w);
  update_system_key = λ k w. (ok tt, (w.0, k));
  use_system_key = λ id w. (ok tt, w);
  delete_system_key = λ id w. (ok tt, w);
  count_by_user = λ id w. (ok (pos 1), w);
  oauth_registry = λ p. err "no provider";
  set_state = λ s p w. (ok tt, w);
  get_state = λ s w. (err "no state", w);
  delete_state = λ s w. (ok tt, w);
  generate_access_token = λ id email w. (ok ("access", 60), w);
  generate_refresh_token = λ w. (ok (record { token = "r2"; hash = "r2"; expires_at = 200 }), w);
  hash_refresh_token = λ s. s;
  access_token_expiry = 900;
  encrypt = λ s w. (ok s, w);
  decrypt = λ s w. (ok s, w);
  hash_api_key = λ s. s;
}

memory-TokenTable : TokenTable memory
unfolding is_revoked
memory-TokenTable = record {
  Revoked = λ w hash. w.0 ≡ true;
  revoke_Revoked = λ hash t w w1 w2 w3 e f. ground arith;
  get_user_Revoked = λ hash id u w w' r e. ground arith;
  access_Revoked = λ hash email id a w w' r e. ground arith;
  refresh_Revoked = λ hash g w w' r e. ground arith;
  create_Revoked = λ hash t w w' r e. ground arith;
  Revoked_found = λ hash w r. (token_row w.0, refl, ground arith);
  all_revoked = λ u hash t w w' e f g. ground arith;
}

memory-KeyTable : KeyTable memory
memory-KeyTable = record {
  create_found = λ k w w' e. ground (arith, eq_iff w'.1.key_hash k.key_hash);
  update_found = λ k w w' e. ground (arith, eq_iff w'.1.key_hash k.key_hash);
  update_replaces =
      λ id hash old k w w1 w2 e a b n f x g. ground (arith, eq_iff w2.1.key_hash hash);
}

abbrev client : Client
client = record { user_agent = "curl"; ip_address = "::1" }

abbrev pair : TokenPair
pair = record {
  access_token = "access";
  refresh_token = "r2";
  token_type = "Bearer";
  expires_in = 900;
  expires_at = 60;
}

refresh_token_used_once_example :
    ((refresh_tokens memory 10 30 "r" client (true, key)).0 ≡ fails_with revoked_token)
    ⊎ ((refresh_tokens memory 10 30 "r" client (true, key)).0 ≡ fails_with expired_token)
unfolding refresh_tokens check_refresh_token generate_token_pair is_valid is_expired is_revoked
refresh_token_used_once_example =
    refresh_token_used_once memory memory-TokenTable 9 10 20 30 "r" client client pair (false, key)
      (true, key) refl

logout_lem_example :
    ((refresh_tokens memory 10 30 "r" client (true, key)).0 ≡ fails_with revoked_token)
    ⊎ ((refresh_tokens memory 10 30 "r" client (true, key)).0 ≡ fails_with expired_token)
unfolding logout
logout_lem_example =
    logout_lem memory memory-TokenTable 5 10 30 "r" client (token_row true) (false, key) (true, key)
      refl refl refl

-- A key that is asked for one day.
abbrev input : CreateSystemApiKeyInput
input = record {
  name = "ci";
  scopes = [];
  rate_limit_rpm = none;
  rate_limit_tpm = none;
  expires_in_days = some (pos 1);
}

abbrev new_key : SystemApiKey
new_key = record key { key_hash = "sk-0000-0000"; key_prefix = "sk-0000-00" }

created_key_validates_example :
    (validate_system_api_key memory 100000000 "sk-0000-0000" (false, new_key)).0 ≡ returns new_key
unfolding create_system_api_key generate_api_key
created_key_validates_example =
    created_key_validates memory memory-KeyTable (pos 10) "0000-0000" 7 1 100000000 5 input
      (record { key = new_key; raw_api_key = "sk-0000-0000" }) (false, key) (false, new_key) refl

rotated_key_validates_example :
    (rotate_system_api_key memory "0000-0000" 5 7 (false, key)
      ≡ (returns (record { key = new_key; raw_api_key = "sk-0000-0000" }), (false, new_key)))
    × ((validate_system_api_key memory 20 "sk-0000-0000" (false, new_key)).0 ≡ returns new_key)
    × ((x : SystemApiKey)
        → (validate_system_api_key memory 20 "sk-old" (false, new_key)).0 ≢ returns x)
unfolding generate_api_key is_key_valid is_key_expired
rotated_key_validates_example =
    rotated_key_validates memory memory-KeyTable "0000-0000" "sk-old" 5 7 20 key (false, key)
      (false, key) (false, new_key) refl refl refl refl
      (λ e. ground (arith, (eq_iff "sk-0000-0000" "sk-old").1 e)) refl
