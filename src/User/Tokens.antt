-- ===== src/User/Tokens.antt =====
-- The single use of a token.
use uniedit_server.Common.{
  ◌⊎◌, inl, inr, ◌≡◌, ◌∙◌, ap, ℕ, String, Bool, true, not, some, ok, returns, fails_with, arith,
  Ensures, ensured, Ensures-give, Ensures-deref, Ensures-call, Ensures-require, Ensures-bind,
  Ensures-all,
}
use uniedit_server.User.Model.{
  User, EmailVerification, VerificationPurpose, is_used, is_expired, token_already_used, from_port,
}
use uniedit_server.User.Ports.{Ports, Bcrypt}
use uniedit_server.User.Service.Accounts.{long_enough, hash_password}
use uniedit_server.User.Service.Registration.{
  check_token, user_of_token, is_password_reset, is_registration, reset_password, verify_email,
}

-- The table of tokens: one that is found and marked is used, stays so when a user is updated, and is found so.
pub record TokenTable {W : Type 0} (d : Ports W) : Type 1 where
  pub Used : W → String → Type 0
  pub mark_Used :
      (token : String) (v : EmailVerification) (w w1 w2 w3 : W)
      → d.get_verification_by_token token w ≡ (ok (some v), w1)
      → d.mark_verification_used v.id w2 ≡ (ok tt, w3)
      → Used w3 token
  pub update_Used :
      (token : String) (u : User) (w w' : W)
      → Used w token
      → d.update_user u w ≡ (ok tt, w')
      → Used w' token
  pub Used_found :
      (token : String) (w : W)
      → Used w token
      → ((v : EmailVerification) × ((d.get_verification_by_token token w).0 ≡ ok (some v))
          × (is_used v ≡ true))

module _ {W : Type 0} (d : Ports W) (t : TokenTable d) where
  check_token-Ensures :
      {Q : EmailVerification → W → Type 0} (now : ℕ) (token : String)
      (p : VerificationPurpose → Bool) (w : W)
      → ((v : EmailVerification) (w' : W)
          → d.get_verification_by_token token w ≡ (ok (some v), w')
          → Q v w')
      → Ensures (check_token d now token p) w Q
  unfolding check_token
  check_token-Ensures now token p w q = Ensures-bind _ _ w (
      Ensures-call _ (d.get_verification_by_token token) w (λ o w1 f. Ensures-bind _ _ w1 (
        Ensures-deref o w1 (λ v g. Ensures-bind _ _ w1 (
          Ensures-require (not (is_used v)) _ w1 (λ a. Ensures-bind _ _ w1 (
            Ensures-require (not (is_expired now v)) _ w1 (λ b. Ensures-bind _ _ w1 (
              Ensures-require (p v.purpose) _ w1
                (λ c. Ensures-give v w1 (q v w1 (f ∙ ap (λ x. (ok x, w1)) g))))))))))))

  reset_password-Ensures :
      (b : Bcrypt) (salt now : ℕ) (token new : String) (w : W)
      → Ensures (reset_password d b salt now token new) w (λ x w'. t.Used w' token)
  unfolding reset_password
  reset_password-Ensures b salt now token new w = Ensures-bind _ _ w (
      Ensures-require (long_enough new) _ w (λ l. Ensures-bind _ _ w (
        check_token-Ensures now token is_password_reset w (λ v w1 f. Ensures-bind _ _ w1 (
          Ensures-all (user_of_token d v) w1 (λ u w2. Ensures-bind _ _ w2 (
            Ensures-all (hash_password d b salt new) w2 (λ h w3. Ensures-bind _ _ w3 (
              Ensures-call from_port (d.mark_verification_used v.id) w3 (λ x w4 m.
                Ensures-call from_port _ w4 (λ y w5 g.
                  t.update_Used token _ w4 w5 (t.mark_Used token v w w1 w3 w4 f m) g)))))))))))

  verify_email-Ensures :
      (now : ℕ) (token : String) (w : W)
      → Ensures (verify_email d now token) w (λ x w'. t.Used w' token)
  unfolding verify_email
  verify_email-Ensures now token w = Ensures-bind _ _ w (
      check_token-Ensures now token is_registration w (λ v w1 f. Ensures-bind _ _ w1 (
        Ensures-all (user_of_token d v) w1 (λ u w2. Ensures-bind _ _ w2 (
          Ensures-call from_port (d.mark_verification_used v.id) w2 (λ x w3 m.
            Ensures-call from_port _ w3
              (λ y w4 g. t.update_Used token _ w3 w4 (t.mark_Used token v w w1 w2 w3 f m) g)))))))

  used_refused :
      (b : Bcrypt) (salt now : ℕ) (token new : String) (w : W)
      → t.Used w token
      → long_enough new ≡ true
      → ((reset_password d b salt now token new w).0 ≡ fails_with token_already_used)
        × ((verify_email d now token w).0 ≡ fails_with token_already_used)
  unfolding reset_password verify_email check_token
  used_refused b salt now token new w u l =
      let f = t.Used_found token w u in (ground (arith, f, l), ground (arith, f))

  -- A token is used once: when a reset of a password or a verification of an email by it has succeeded,
  -- then in the world that it leaves both refuse the token as used, whatever the time and for any new
  -- password of 8 bytes or more.
  pub token_used_once :
      (b : Bcrypt) (salt salt' now now' : ℕ) (token new new' : String) (w w' : W)
      → (reset_password d b salt now token new w ≡ (returns tt, w'))
        ⊎ (verify_email d now token w ≡ (returns tt, w'))
      → long_enough new' ≡ true
      → ((reset_password d b salt' now' token new' w').0 ≡ fails_with token_already_used)
        × ((verify_email d now' token w').0 ≡ fails_with token_already_used)
  token_used_once b salt salt' now now' token new new' w w' (inl e) l =
      used_refused b salt' now' token new' w'
        (ensured _ tt w w' (reset_password-Ensures b salt now token new w) e) l
  token_used_once b salt salt' now now' token new new' w w' (inr e) l =
      used_refused b salt' now' token new' w'
        (ensured _ tt w w' (verify_email-Ensures now token w) e) l
