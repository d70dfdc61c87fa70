-- ===== src/User/Model.antt =====
-- internal/model/user.go: users, their profiles and preferences, and the tokens that verify an email or
-- reset a password, with the errors of internal/domain/user/errors.go.
use uniedit_server.Common.{
  ◌≡◌, ◌↔◌, ℕ, ltb, String, Bool, true, false, not, ◌&&◌, Option, none, some, Eq, str_eq, eq_iff,
  arith, ◌==◌, String_Eq,
}

-- `other s` is a string that is none of the constants; so for the purposes.
pub data UserStatus : Type 0 where
  active pending suspended deleted : UserStatus
  other : String → UserStatus

abbrev status_eq : UserStatus → UserStatus → Bool
status_eq active active = true
status_eq pending pending = true
status_eq suspended suspended = true
status_eq deleted deleted = true
status_eq (other s) (other t) = str_eq s t
status_eq _ _ = false

pub status_eq_iff : (p q : UserStatus) → (status_eq p q ≡ true) ↔ (p ≡ q)
status_eq_iff (other s) (other t) = ground (arith, eq_iff s t)
status_eq_iff p q = ground arith

instance abbrev pub UserStatus_Eq : Eq UserStatus
UserStatus_Eq = record { is_eq = status_eq; is_eq_iff = status_eq_iff }

pub record User : Type 0 where
  pub id : ℕ
  pub email : String
  pub name : String
  pub avatar_url : String
  pub oauth_provider : Option String
  pub oauth_id : Option String
  pub password_hash : Option String
  pub status : UserStatus
  pub email_verified : Bool
  pub is_admin : Bool
  pub suspended_at : Option ℕ
  pub suspend_reason : Option String
  pub created_at : ℕ
  pub updated_at : ℕ
  pub deleted_at : Option ℕ

-- A text that is there and not empty.
abbrev filled : Option String → Bool
filled none = false
filled (some s) = not (s == "")

unfoldable pub is_email_user : User → Bool
is_email_user u = filled u.password_hash

unfoldable pub is_oauth_user : User → Bool
is_oauth_user u = filled u.oauth_provider

unfoldable pub can_login : User → Bool
can_login u = u.status == active && u.email_verified

pub record Profile : Type 0 where
  pub user_id : ℕ
  pub display_name : String
  pub bio : String
  pub avatar_url : String
  pub updated_at : ℕ

pub record Preferences : Type 0 where
  pub user_id : ℕ
  pub theme : String
  pub language : String
  pub timezone : String

pub data VerificationPurpose : Type 0 where
  registration password_reset : VerificationPurpose
  other_purpose : String → VerificationPurpose

pub record EmailVerification : Type 0 where
  pub id : ℕ
  pub user_id : ℕ
  pub token : String
  pub purpose : VerificationPurpose
  pub expires_at : ℕ
  pub used_at : Option ℕ
  pub created_at : ℕ

-- `IsExpired`, at the time `now`.
unfoldable pub is_expired : ℕ → EmailVerification → Bool
is_expired now v = ltb v.expires_at now

unfoldable pub is_used : EmailVerification → Bool
is_used v = elim v.used_at [ none ↦ false | some t ↦ true ]

unfoldable pub is_valid : ℕ → EmailVerification → Bool
is_valid now v = not (is_expired now v) && not (is_used v)

pub data UserError : Type 0 where
  user_not_found email_already_exists incorrect_password : UserError
  password_too_short password_required : UserError
  invalid_token token_expired token_already_used : UserError
  cannot_suspend_admin user_already_active : UserError
  email_already_verified already_suspended user_not_suspended already_deleted : UserError
  email_empty name_empty provider_empty storage_not_configured : UserError
  from_port : String → UserError
