-- ===== src/Auth/Sessions.antt =====
-- internal/domain/auth/domain.go: logins with OAuth, and refresh tokens. New ids, the text of a state and
-- the time are arguments.
use uniedit_server.Common.{
  ℕ, String, String_Eq, not, ◌==◌, if◌then◌else◌, none, Result, ok, err, Reply, returns, fails_with,
  panics, Service, ◌>>=◌, ◌>>◌, give, raise, require, call, Port,
}
use uniedit_server.User.Model.{User, UserError}
use uniedit_server.Auth.Model.{
  OAuthProvider, provider_name, is_valid_provider, RefreshToken, is_expired, is_valid, TokenPair,
  AuthError, invalid_token, expired_token, revoked_token, invalid_oauth_provider,
  invalid_oauth_code, invalid_oauth_state, oauth_failed, user_not_created, from_port, from_user,
}
use uniedit_server.Auth.Ports.{Ports, OAuthClient, GeneratedToken}

-- What a client says of itself.
pub record Client : Type 0 where
  pub user_agent : String
  pub ip_address : String

pub record LoginResponse : Type 0 where
  pub auth_url : String
  pub state : String

module _ {W : Type 0} where
  -- An error of the user service ends the method.
  abbrev pub of_user : {A : Type 0} → AuthError → Reply UserError A × W → Reply AuthError A × W
  of_user e (returns a, w) = (returns a, w)
  of_user e (fails_with f, w) = (fails_with e, w)
  of_user e (panics, w) = (panics, w)

  abbrev pub ask_user : {A : Type 0} → AuthError → Service W UserError A → Service W AuthError A
  ask_user e m w = of_user e (m w)

  abbrev pub registered : Result String (OAuthClient W) → Service W AuthError (OAuthClient W)
  registered (ok c) = give c
  registered (err e) = raise invalid_oauth_provider

  -- `defer`, of a call whose error is dropped.
  abbrev pub after :
      {A : Type 0} → Port W (Unit {0}) → Reply AuthError A × W → Reply AuthError A × W
  after p (r, w) = (r, (p w).1)

  abbrev pub deferred :
      {A : Type 0} → Port W (Unit {0}) → Service W AuthError A → Service W AuthError A
  deferred p m w = after p (m w)

abbrev pub new_token : ℕ → ℕ → User → GeneratedToken → Client → RefreshToken
new_token new_id now u g client = record {
  id = new_id;
  user_id = u.id;
  token_hash = g.hash;
  expires_at = g.expires_at;
  created_at = now;
  revoked_at = none;
  user_agent = client.user_agent;
  ip_address = client.ip_address;
}

module _ {W : Type 0} (d : Ports W) where
  unfoldable pub generate_token_pair : ℕ → ℕ → User → Client → Service W AuthError TokenPair
  generate_token_pair new_id now u client = do
    access ← call from_port (d.generate_access_token u.id u.email)
    g ← call from_port d.generate_refresh_token
    call from_port (d.create_token (new_token new_id now u g client))
    give (record {
      access_token = access.0;
      refresh_token = g.token;
      token_type = "Bearer";
      expires_in = d.access_token_expiry;
      expires_at = access.1;
    })

  -- The two errors of a stored token that is not valid.
  unfoldable pub check_refresh_token : ℕ → RefreshToken → Service W AuthError (Unit {0})
  check_refresh_token now t =
      if not (is_valid now t)
      then (if is_expired now t then raise expired_token else raise revoked_token)
      else give tt

  unfoldable pub refresh_tokens : ℕ → ℕ → String → Client → Service W AuthError TokenPair
  refresh_tokens new_id now refresh_token client = do
    stored ← call (λ e. invalid_token) (d.get_token_by_hash (d.hash_refresh_token refresh_token))
    check_refresh_token now stored
    call from_port (d.revoke stored.id)
    u ← ask_user from_user (d.get_user stored.user_id)
    generate_token_pair new_id now u client

  unfoldable pub logout : ℕ → Service W AuthError (Unit {0})
  logout user_id = call from_port (d.revoke_all_for_user user_id)

  unfoldable pub initiate_login : String → OAuthProvider → Service W AuthError LoginResponse
  initiate_login state provider = do
    require (is_valid_provider provider) invalid_oauth_provider
    oauth ← registered (d.oauth_registry (provider_name provider))
    call from_port (d.set_state state (provider_name provider))
    give (record { auth_url = oauth.get_auth_url state; state = state })

  -- `CompleteLogin`, after the stored state is found.
  unfoldable pub login_with :
      ℕ → ℕ → OAuthProvider → String → String → Client → Service W AuthError (TokenPair × User)
  login_with new_id now provider code stored client = do
    require (stored == provider_name provider) invalid_oauth_state
    oauth ← registered (d.oauth_registry (provider_name provider))
    token ← call (λ e. invalid_oauth_code) (oauth.exchange code)
    info ← call (λ e. oauth_failed) (oauth.get_user_info token)
    u ← ask_user user_not_created (d.get_user_by_email info.email)
    pair ← generate_token_pair new_id now u client
    give (pair, u)

  unfoldable pub complete_login :
      ℕ → ℕ → OAuthProvider → String → String → Client → Service W AuthError (TokenPair × User)
  complete_login new_id now provider code state client = do
    stored ← call (λ e. invalid_oauth_state) (d.get_state state)
    deferred (d.delete_state state) (login_with new_id now provider code stored client)
