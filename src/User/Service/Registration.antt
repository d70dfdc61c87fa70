-- ===== src/User/Service/Registration.antt =====
-- internal/domain/user/domain.go: registration, and the tokens sent by email.
use uniedit_server.Common.{
  ℕ, ◌+◌, String, Bool, true, false, not, ◌==◌, if◌then◌else◌, Option, none, some, Result, ok, err,
  Service, Reply, returns, fails_with, panics, ◌>>=◌, ◌>>◌, give, require, try, call, deref, found,
  returns, fails_with,
}
use uniedit_server.User.Model.{
  User, active, pending, UserStatus_Eq, is_email_user, EmailVerification, VerificationPurpose,
  registration, password_reset, is_used, is_expired, UserError, user_not_found,
  email_already_exists, password_too_short, invalid_token, token_expired, token_already_used,
  from_port,
}
use uniedit_server.User.Ports.{Ports, Bcrypt, EmailSender}
use uniedit_server.User.Service.Accounts.{long_enough, hash_password}

pub record RegisterInput : Type 0 where
  pub email : String
  pub password : String
  pub name : String

-- What a call leaves to a random source: the id and the text of a token.
pub record Fresh : Type 0 where
  pub token_id : ℕ
  pub token : Result String String

abbrev pub is_registration : VerificationPurpose → Bool
is_registration registration = true
is_registration _ = false

abbrev pub is_password_reset : VerificationPurpose → Bool
is_password_reset password_reset = true
is_password_reset _ = false

-- The zero time for any other purpose.
abbrev pub expiry_of : ℕ → VerificationPurpose → ℕ
expiry_of now registration = now + 86400
expiry_of now password_reset = now + 3600
expiry_of now _ = 0

abbrev pub new_verification : ℕ → ℕ → User → VerificationPurpose → String → EmailVerification
new_verification new_id now user purpose token = record {
  id = new_id;
  user_id = user.id;
  token = token;
  purpose = purpose;
  expires_at = expiry_of now purpose;
  used_at = none;
  created_at = now;
}

abbrev pub new_row : ℕ → ℕ → RegisterInput → String → User
new_row new_id now input hash = record {
  id = new_id;
  email = input.email;
  name = input.name;
  avatar_url = "";
  oauth_provider = none;
  oauth_id = none;
  password_hash = some hash;
  status = pending;
  email_verified = false;
  is_admin = false;
  suspended_at = none;
  suspend_reason = none;
  created_at = now;
  updated_at = now;
  deleted_at = none;
}

abbrev pub verified : User → User
verified user = record user {
  email_verified = true;
  status = if user.status == pending then active else user.status;
}

-- `err == nil && existing != nil`.
abbrev pub is_taken : Result String (Option User) → Bool
is_taken (ok (some u)) = true
is_taken _ = false

-- The user of a lookup whose error is no user.
abbrev pub user_of : Result String (Option User) → Option User
user_of (ok o) = o
user_of (err e) = none

-- An error that is only logged.
module _ {W : Type 0} where
  abbrev pub dropped : Reply UserError (Unit {0}) × W → Reply UserError (Unit {0}) × W
  dropped (fails_with e, w) = (returns tt, w)
  dropped (returns a, w) = (returns a, w)
  dropped (panics, w) = (panics, w)

  abbrev pub ignoring : Service W UserError (Unit {0}) → Service W UserError (Unit {0})
  ignoring m w = dropped (m w)

module _ {W : Type 0} (d : Ports W) where
  -- The email itself, where a sender is configured.
  unfoldable pub send :
      Option (EmailSender W) → User → VerificationPurpose → String → Service W UserError (Unit {0})
  send none user purpose token = give tt
  send (some s) user registration token =
      call from_port (s.send_verification_email user.email user.name token)
  send (some s) user password_reset token =
      call from_port (s.send_password_reset_email user.email user.name token)
  send (some s) user (VerificationPurpose.other_purpose p) token = give tt

  unfoldable pub send_verification_email :
      Fresh → ℕ → User → VerificationPurpose → Service W UserError (Unit {0})
  send_verification_email fresh now user purpose = do
    token ← call from_port (λ w. (fresh.token, w))
    call from_port (d.create_verification (new_verification fresh.token_id now user purpose token))
    send d.email_sender user purpose token

  unfoldable pub check_email : String → Service W UserError (Unit {0})
  check_email email = do
    existing ← try (d.find_by_email email)
    require (not (is_taken existing)) email_already_exists

  unfoldable pub register : Bcrypt → Fresh → ℕ → ℕ → ℕ → RegisterInput → Service W UserError User
  register b fresh salt new_id now input = do
    check_email input.email
    require (long_enough input.password) password_too_short
    hash ← hash_password d b salt input.password
    call from_port (d.create_user (new_row new_id now input hash))
    ignoring (send_verification_email fresh now (new_row new_id now input hash) registration)
    give (new_row new_id now input hash)

  -- A token that is found, unused, in time and for the purpose.
  unfoldable pub check_token :
      ℕ → String → (VerificationPurpose → Bool) → Service W UserError EmailVerification
  check_token now token for_purpose = do
    verification ← deref (← call (λ e. invalid_token) (d.get_verification_by_token token))
    require (not (is_used verification)) token_already_used
    require (not (is_expired now verification)) token_expired
    require (for_purpose verification.purpose) invalid_token
    give verification

  -- `if err != nil || user == nil`.
  unfoldable pub user_of_token : EmailVerification → Service W UserError User
  user_of_token verification = do
    user ← try (d.find_by_id verification.user_id)
    found (user_of user) user_not_found

  unfoldable pub verify_email : ℕ → String → Service W UserError (Unit {0})
  verify_email now token = do
    verification ← check_token now token is_registration
    user ← user_of_token verification
    call from_port (d.mark_verification_used verification.id)
    call from_port (d.update_user (verified user))

  -- An error of the invalidation is only logged.
  unfoldable pub invalidate : User → VerificationPurpose → Service W UserError (Unit {0})
  invalidate user purpose =
      ignoring (call from_port (d.invalidate_user_verifications user.id purpose))

  -- The old tokens are invalidated before a new one is sent.
  unfoldable pub send_again :
      Fresh → ℕ → User → VerificationPurpose → Service W UserError (Unit {0})
  send_again fresh now user purpose = do
    invalidate user purpose
    send_verification_email fresh now user purpose

  unfoldable pub resend_verification : Fresh → ℕ → String → Service W UserError (Unit {0})
  resend_verification fresh now email = do
    user ← try (d.find_by_email email)
    elim (user_of user) [
      | none ↦ give tt
      | some u ↦ if u.email_verified then give tt else send_again fresh now u registration
    ]

  unfoldable pub request_password_reset : Fresh → ℕ → String → Service W UserError (Unit {0})
  request_password_reset fresh now email = do
    user ← try (d.find_by_email email)
    elim (user_of user) [
      | none ↦ give tt
      | some u ↦ if not (is_email_user u) then give tt else send_again fresh now u password_reset
    ]

  unfoldable pub reset_password : Bcrypt → ℕ → ℕ → String → String → Service W UserError (Unit {0})
  reset_password b salt now token new_password = do
    require (long_enough new_password) password_too_short
    verification ← check_token now token is_password_reset
    user ← user_of_token verification
    hash ← hash_password d b salt new_password
    call from_port (d.mark_verification_used verification.id)
    call from_port (d.update_user (record user { password_hash = some hash }))
