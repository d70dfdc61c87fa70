-- ===== src/User/Service/Accounts.antt =====
-- internal/domain/user/domain.go: profiles, preferences, and a user's own account.
use Prim.Native.String.{len}
use uniedit_server.Common.{
  ℕ, ltb, String, String_Eq, Bool, not, ◌==◌, if◌then◌else◌, Option, none, some, List, Service,
  ◌>>=◌, ◌>>◌, give, raise, require, call, deref, found,
}
use uniedit_server.User.Model.{
  User, is_email_user, Profile, Preferences, UserError, user_not_found, password_too_short,
  password_required, incorrect_password, storage_not_configured, from_port,
}
use uniedit_server.User.Ports.{Ports, Bcrypt, ProfileDatabase}

pub record UpdateProfileInput : Type 0 where
  pub name : Option String
  pub avatar_url : Option String

abbrev or_else {ℓ} : {A : Type ℓ} → Option A → A → A
or_else none a = a
or_else (some b) a = b

abbrev pub updated_profile : UpdateProfileInput → User → User
updated_profile input u = record u {
  name = or_else input.name u.name;
  avatar_url = or_else input.avatar_url u.avatar_url;
}

abbrev profile_of : User → Profile
profile_of u = record {
  user_id = u.id;
  display_name = u.name;
  bio = "";
  avatar_url = u.avatar_url;
  updated_at = u.updated_at;
}

abbrev pub default_preferences : ℕ → Preferences
default_preferences user_id = record {
  user_id = user_id;
  theme = "light";
  language = "en";
  timezone = "UTC";
}

-- `len(password) >= 8`.
abbrev pub long_enough : String → Bool
long_enough password = not (ltb (len password) 8)

module _ {W : Type 0} (d : Ports W) where
  unfoldable pub get_user : ℕ → Service W UserError User
  get_user id = do user ← call from_port (d.find_by_id id); found user user_not_found

  unfoldable pub get_user_by_email : String → Service W UserError User
  get_user_by_email email = do
    user ← call from_port (d.find_by_email email)
    found user user_not_found

  unfoldable pub profile_from : Option (ProfileDatabase W) → ℕ → Service W UserError Profile
  profile_from none user_id = do user ← get_user user_id; give (profile_of user)
  profile_from (some db) user_id = do
    profile ← call from_port (db.get_profile user_id)
    found profile user_not_found

  unfoldable pub get_profile : ℕ → Service W UserError Profile
  get_profile user_id = profile_from d.profile_db user_id

  unfoldable pub update_profile : ℕ → UpdateProfileInput → Service W UserError User
  update_profile user_id input = do
    user ← get_user user_id
    call from_port (d.update_user (updated_profile input user))
    give (updated_profile input user)

  unfoldable pub get_preferences : ℕ → Service W UserError Preferences
  get_preferences user_id = elim d.prefs_db [
    | none ↦ give (default_preferences user_id)
    | some db ↦ call from_port (db.get_preferences user_id)
  ]

  unfoldable pub update_preferences : ℕ → Preferences → Service W UserError (Unit {0})
  update_preferences user_id prefs = elim d.prefs_db [
    | none ↦ give tt
    | some db ↦ call from_port (db.update_preferences (record prefs { user_id = user_id }))
  ]

  unfoldable pub upload_avatar : ℕ → List ℕ → String → Service W UserError String
  upload_avatar user_id bytes content_type = elim d.avatar_storage [
    | none ↦ raise storage_not_configured
    | some upload ↦ call from_port (upload user_id bytes content_type)
  ]

module _ {W : Type 0} (d : Ports W) (b : Bcrypt) where
  -- A new hash, or the error of the library.
  unfoldable pub hash_password : ℕ → String → Service W UserError String
  hash_password salt password w = call from_port (λ v. (b.generate salt password, v)) w

  unfoldable pub change_password : ℕ → ℕ → String → String → Service W UserError (Unit {0})
  change_password salt user_id current_password new_password = do
    require (long_enough new_password) password_too_short
    user ← get_user d user_id
    old ← found user.password_hash password_required
    require (b.matches old current_password) incorrect_password
    hash ← hash_password salt new_password
    call from_port (d.update_user (record user { password_hash = some hash }))

  -- The check of the password of a user who has one.
  unfoldable pub check_password : User → String → Service W UserError (Unit {0})
  check_password user password =
      if is_email_user user
      then (do
        require (not (password == "")) password_required
        hash ← deref user.password_hash
        require (b.matches hash password) incorrect_password)
      else give tt

  unfoldable pub delete_account : ℕ → String → Service W UserError (Unit {0})
  delete_account user_id password = do
    user ← get_user d user_id
    check_password user password
    call from_port (d.soft_delete user_id)
