-- ===== src/User/Aggregate.antt =====
-- internal/domain/user/user.go and verification.go: the methods of a user and of a token. The aggregate
-- has the fields of the row `User`. A method returns the new object with its error, if any; the id of a
-- new object and the time are arguments.
use uniedit_server.Common.{
  ℕ, String, String_Eq, Bool, true, false, not, ◌==◌, if◌then◌else◌, Option, none, some, Result, ok,
  err,
}
use uniedit_server.User.Model.{
  User, active, pending, suspended, deleted, UserStatus_Eq, EmailVerification, VerificationPurpose,
  is_expired, is_used, UserError, email_empty, name_empty, provider_empty, email_already_verified,
  cannot_suspend_admin, already_suspended, user_not_suspended, already_deleted, token_already_used,
  token_expired,
}

abbrev fresh_user : ℕ → ℕ → String → String → User
fresh_user new_id now email name = record {
  id = new_id;
  email = email;
  name = name;
  avatar_url = "";
  oauth_provider = none;
  oauth_id = none;
  password_hash = none;
  status = pending;
  email_verified = false;
  is_admin = false;
  suspended_at = none;
  suspend_reason = none;
  created_at = now;
  updated_at = now;
  deleted_at = none;
}

unfoldable pub new_user : ℕ → ℕ → String → String → Result UserError User
new_user new_id now email name =
    if email == ""
    then err email_empty
    else if name == ""
    then err name_empty
    else ok (fresh_user new_id now email name)

unfoldable pub new_oauth_user : ℕ → ℕ → String → String → String → String → Result UserError User
new_oauth_user new_id now email name provider oauth_id =
    if email == ""
    then err email_empty
    else if provider == ""
    then err provider_empty
    else ok (record (fresh_user new_id now email name) {
      oauth_provider = some provider;
      oauth_id = some oauth_id;
      status = active;
      email_verified = true;
    })

abbrev pub Changed : Type 0
Changed = User × Option UserError

unfoldable pub set_password_hash : ℕ → String → User → User
set_password_hash now hash u = record u { password_hash = some hash; updated_at = now }

unfoldable pub set_name : ℕ → String → User → User
set_name now name u = record u { name = name; updated_at = now }

unfoldable pub set_avatar_url : ℕ → String → User → User
set_avatar_url now url u = record u { avatar_url = url; updated_at = now }

unfoldable pub verify_email : ℕ → User → Changed
verify_email now u = if u.email_verified then (u, some email_already_verified) else (
  record u {
    email_verified = true;
    status = if u.status == pending then active else u.status;
    updated_at = now;
  },
  none,
)

unfoldable pub suspend : ℕ → String → User → Changed
suspend now reason u =
    if u.is_admin
    then (u, some cannot_suspend_admin)
    else if u.status == suspended
    then (u, some already_suspended)
    else (
      record u {
        status = suspended;
        suspended_at = some now;
        suspend_reason = some reason;
        updated_at = now;
      },
      none,
    )

unfoldable pub reactivate : ℕ → User → Changed
reactivate now u = if not (u.status == suspended) then (u, some user_not_suspended) else (
  record u { status = active; suspended_at = none; suspend_reason = none; updated_at = now },
  none,
)

unfoldable pub soft_delete : ℕ → User → Changed
soft_delete now u =
    if u.status == deleted
    then (u, some already_deleted)
    else (record u { status = deleted; deleted_at = some now; updated_at = now }, none)

unfoldable pub set_admin_status : ℕ → Bool → User → User
set_admin_status now is_admin u = record u { is_admin = is_admin; updated_at = now }

unfoldable pub new_email_verification :
    ℕ → ℕ → ℕ → String → VerificationPurpose → ℕ → EmailVerification
new_email_verification new_id now user_id token purpose expires_at = record {
  id = new_id;
  user_id = user_id;
  token = token;
  purpose = purpose;
  expires_at = expires_at;
  used_at = none;
  created_at = now;
}

unfoldable pub mark_as_used : ℕ → EmailVerification → EmailVerification × Option UserError
mark_as_used now v =
    if is_used v
    then (v, some token_already_used)
    else if is_expired now v
    then (v, some token_expired)
    else (record v { used_at = some now }, none)
