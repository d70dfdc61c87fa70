-- ===== src/Auth/Rotation.antt =====
-- The single use of a refresh token, and the end of all of them at a logout.
use uniedit_server.Common.{
  ◌≡◌, ◌⊎◌, refl, ℕ, String, true, ok, Reply, returns, fails_with, panics, Service, arith, Ensures,
  ensured, Ensures-give, Ensures-call, Ensures-bind, Ensures-all, Holds,
}
use uniedit_server.User.Model.{User, UserError}
use uniedit_server.Auth.Model.{
  RefreshToken, is_revoked, is_valid, TokenPair, AuthError, expired_token, revoked_token, from_port,
  from_user,
}
use uniedit_server.Auth.Ports.{Ports, GeneratedToken}
use uniedit_server.Auth.Sessions.{
  Client, ask_user, generate_token_pair, check_refresh_token, refresh_tokens, logout, new_token,
  of_user,
}

-- The table of refresh tokens: one that is found and revoked stays so when tokens are generated and
-- stored and a user is read, and is found so; and after the revocation of all tokens of a user, those
-- that are found are revoked.
pub record TokenTable {W : Type 0} (d : Ports W) : Type 1 where
  pub Revoked : W → String → Type 0
  pub revoke_Revoked :
      (hash : String) (t : RefreshToken) (w w1 w2 w3 : W)
      → d.get_token_by_hash hash w ≡ (ok t, w1)
      → d.revoke t.id w2 ≡ (ok tt, w3)
      → Revoked w3 hash
  pub get_user_Revoked :
      (hash : String) (id : ℕ) (u : User) (w w' : W)
      → Revoked w hash
      → d.get_user id w ≡ (returns u, w')
      → Revoked w' hash
  pub access_Revoked :
      (hash email : String) (id : ℕ) (r : String × ℕ) (w w' : W)
      → Revoked w hash
      → d.generate_access_token id email w ≡ (ok r, w')
      → Revoked w' hash
  pub refresh_Revoked :
      (hash : String) (g : GeneratedToken) (w w' : W)
      → Revoked w hash
      → d.generate_refresh_token w ≡ (ok g, w')
      → Revoked w' hash
  pub create_Revoked :
      (hash : String) (t : RefreshToken) (w w' : W)
      → Revoked w hash
      → d.create_token t w ≡ (ok tt, w')
      → Revoked w' hash
  pub Revoked_found :
      (hash : String) (w : W)
      → Revoked w hash
      → ((t : RefreshToken) × ((d.get_token_by_hash hash w).0 ≡ ok t) × (is_revoked t ≡ true))
  pub all_revoked :
      (user_id : ℕ) (hash : String) (t : RefreshToken) (w w' : W)
      → d.revoke_all_for_user user_id w ≡ (ok tt, w')
      → (d.get_token_by_hash hash w').0 ≡ ok t
      → t.user_id ≡ user_id
      → is_revoked t ≡ true

module _ {W A : Type 0} where
  of_user-Holds :
      (Q : A → W → Type 0) (e : AuthError) (r : Reply UserError A × W)
      → ((a : A) (w : W) → r ≡ (returns a, w) → Q a w)
      → Holds Q (of_user e r)
  of_user-Holds Q e (returns a, w) q = q a w refl
  of_user-Holds Q e (fails_with f, w) q = tt
  of_user-Holds Q e (panics, w) q = tt

  Ensures-ask_user :
      {Q : A → W → Type 0} (e : AuthError) (m : Service W UserError A) (w : W)
      → ((a : A) (w' : W) → m w ≡ (returns a, w') → Q a w')
      → Ensures (ask_user e m) w Q
  Ensures-ask_user {Q = Q} e m w q = record { holds = of_user-Holds Q e (m w) q }

module _ {W : Type 0} (d : Ports W) (t : TokenTable d) where
  generate_token_pair-Ensures :
      (hash : String) (new_id now : ℕ) (u : User) (client : Client) (w : W)
      → t.Revoked w hash
      → Ensures (generate_token_pair d new_id now u client) w (λ p w'. t.Revoked w' hash)
  unfolding generate_token_pair
  generate_token_pair-Ensures hash new_id now u client w r = Ensures-bind _ _ w (
      Ensures-call from_port (d.generate_access_token u.id u.email) w (λ a w1 e.
        Ensures-bind _ _ w1 (
          Ensures-call from_port d.generate_refresh_token w1 (λ g w2 f. Ensures-bind _ _ w2 (
            Ensures-call from_port (d.create_token (new_token new_id now u g client)) w2 (λ x w3 h.
              Ensures-give _ w3 (
                t.create_Revoked hash _ w2 w3
                  (t.refresh_Revoked hash g w1 w2 (t.access_Revoked hash u.email u.id a w w1 r e) f)
                  h)))))))

  refresh_tokens-Ensures :
      (new_id now : ℕ) (token : String) (client : Client) (w : W)
      → Ensures
          (refresh_tokens d new_id now token client)
          w
          (λ p w'. t.Revoked w' (d.hash_refresh_token token))
  unfolding refresh_tokens
  refresh_tokens-Ensures new_id now token client w =
      let hash = d.hash_refresh_token token in
      Ensures-bind _ _ w (
        Ensures-call _ (d.get_token_by_hash hash) w (λ s w1 e. Ensures-bind _ _ w1 (
          Ensures-all (check_refresh_token d now s) w1 (λ x w2. Ensures-bind _ _ w2 (
            Ensures-call from_port (d.revoke s.id) w2 (λ y w3 f. Ensures-bind _ _ w3 (
              Ensures-ask_user from_user (d.get_user s.user_id) w3 (λ u w4 g.
                generate_token_pair-Ensures hash new_id now u client w4 (
                  t.get_user_Revoked hash s.user_id u w3 w4 (t.revoke_Revoked hash s w w1 w2 w3 e f)
                    g)))))))))

  -- The refusals of a token that is not valid.
  abbrev pub Refused : Reply AuthError TokenPair → Type 0
  Refused r = (r ≡ fails_with revoked_token) ⊎ (r ≡ fails_with expired_token)

  revoked-Refused :
      (new_id now : ℕ) (token : String) (client : Client) (s : RefreshToken) (w : W)
      → (d.get_token_by_hash (d.hash_refresh_token token) w).0 ≡ ok s
      → is_revoked s ≡ true
      → Refused (refresh_tokens d new_id now token client w).0
  unfolding refresh_tokens check_refresh_token is_valid
  revoked-Refused new_id now token client s w e r = ground (arith, e, r)

  -- A refresh token is used once: when `RefreshTokens` has succeeded with it, then in the world that it
  -- leaves the same token is refused as revoked or expired, whatever the time and by whichever client.
  pub refresh_token_used_once :
      (new_id new_id' now now' : ℕ) (token : String) (client client' : Client) (p : TokenPair)
      (w w' : W)
      → refresh_tokens d new_id now token client w ≡ (returns p, w')
      → Refused (refresh_tokens d new_id' now' token client' w').0
  refresh_token_used_once new_id new_id' now now' token client client' p w w' e =
      let f =
        t.Revoked_found (d.hash_refresh_token token) w'
          (ensured _ p w w' (refresh_tokens-Ensures new_id now token client w) e) in
      revoked-Refused new_id' now' token client' f.0 w' f.1 f.2

  -- After a logout that succeeds, every refresh token of the user is refused as revoked or expired.
  pub logout_lem :
      (user_id new_id now : ℕ) (token : String) (client : Client) (s : RefreshToken) (w w' : W)
      → logout d user_id w ≡ (returns tt, w')
      → (d.get_token_by_hash (d.hash_refresh_token token) w').0 ≡ ok s
      → s.user_id ≡ user_id
      → Refused (refresh_tokens d new_id now token client w').0
  unfolding logout
  logout_lem user_id new_id now token client s w w' e f u =
      revoked-Refused new_id now token client s w' f
        (t.all_revoked user_id (d.hash_refresh_token token) s w w' (ground (arith, e)) f u)
