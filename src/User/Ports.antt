-- ===== src/User/Ports.antt =====
-- internal/port/outbound/user.go: what the service asks of the world `W`, with its optional
-- parts, and the bcrypt library.
use uniedit_server.Common.{ℕ, String, Bool, Option, Result, List, Port}
use uniedit_server.User.Model.{User, Profile, Preferences, EmailVerification, VerificationPurpose}

-- `CompareHashAndPassword` finds no error; and `GenerateFromPassword`, whose salt is the first
-- argument.
pub record Bcrypt : Type 0 where
  pub matches : String → String → Bool
  pub generate : ℕ → String → Result String String

pub record EmailSender (W : Type 0) : Type 0 where
  pub send_verification_email : String → String → String → Port W (Unit {0})
  pub send_password_reset_email : String → String → String → Port W (Unit {0})

pub record ProfileDatabase (W : Type 0) : Type 0 where
  pub get_profile : ℕ → Port W (Option Profile)

pub record PreferencesDatabase (W : Type 0) : Type 0 where
  pub get_preferences : ℕ → Port W Preferences
  pub update_preferences : Preferences → Port W (Unit {0})

pub record Ports (W : Type 0) : Type 0 where
  pub create_user : User → Port W (Unit {0})
  pub find_by_id : ℕ → Port W (Option User)
  pub find_by_email : String → Port W (Option User)
  pub update_user : User → Port W (Unit {0})
  pub soft_delete : ℕ → Port W (Unit {0})
  pub create_verification : EmailVerification → Port W (Unit {0})
  pub get_verification_by_token : String → Port W (Option EmailVerification)
  pub invalidate_user_verifications : ℕ → VerificationPurpose → Port W (Unit {0})
  pub mark_verification_used : ℕ → Port W (Unit {0})
  pub profile_db : Option (ProfileDatabase W)
  pub prefs_db : Option (PreferencesDatabase W)
  pub avatar_storage : Option (ℕ → List ℕ → String → Port W String)
  pub email_sender : Option (EmailSender W)
