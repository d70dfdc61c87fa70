-- ===== src/User/Examples.antt =====
-- One user and one token in memory, with texts for their own hashes.
use uniedit_server.Common.{
  ◌≡◌, refl, inl, ℕ_Eq, ◌==◌, if◌then◌else◌, Bool, true, false, String, str_eq, eq_iff, String_Eq,
  [], ◌∷◌, any, none, some, ok, fails_with, arith, Option, ℕ,
}
use uniedit_server.User.Model.{
  User, active, pending, deleted, UserStatus_Eq, can_login, EmailVerification, password_reset,
  is_used, is_expired, token_already_used,
}
use uniedit_server.User.Aggregate.{new_user, verify_email as verify, set_name}
use uniedit_server.User.Ports.{Ports, Bcrypt}
use uniedit_server.User.Calls.{
  run, step, call_verify_email, call_suspend, call_reactivate, call_soft_delete, call_set_name,
  is_verify_email,
}
use uniedit_server.User.History.{Stamps, new_user-run-Stamps, run-can_login, deleted_user_returns}
use uniedit_server.User.Service.Accounts.{change_password, long_enough, get_user, hash_password}
use uniedit_server.User.Service.Registration.{
  reset_password, verify_email, register, Fresh, RegisterInput, is_taken, verified, new_row,
  check_email, send, send_verification_email, user_of_token, check_token,
}
use uniedit_server.User.Passwords.{
  UserTable, RegisteredRows, HasPassword, change_password_lem, register_lem,
}
use uniedit_server.User.Tokens.{TokenTable, token_used_once}

abbrev ann : User
ann = record {
  id = 5;
  email = "a@b.c";
  name = "Ann";
  avatar_url = "";
  oauth_provider = none;
  oauth_id = none;
  password_hash = some "old password";
  status = active;
  email_verified = true;
  is_admin = false;
  suspended_at = none;
  suspend_reason = none;
  created_at = 1;
  updated_at = 1;
  deleted_at = none;
}

-- The user, and whether the token is used.
abbrev World : Type 0
World = User × Bool

abbrev token_row : Bool → EmailVerification
token_row used = record {
  id = 3;
  user_id = 5;
  token = "t";
  purpose = password_reset;
  expires_at = 100;
  used_at = if used then some 50 else none;
  created_at = 1;
}

abbrev memory : Ports World
memory = record {
  create_user = λ u w. (ok tt, (u, w.1));
  find_by_id = λ id w. (ok (if w.0.id == id then some w.0 else none), w);
  find_by_email = λ email w. (ok (if w.0.email == email then some w.0 else none), w);
  update_user = λ u w. (ok tt, (u, w.1));
  soft_delete = λ id w. (ok tt, w);
  create_verification = λ v w. (ok tt, (w.0, false));
  get_verification_by_token = λ token w. (ok (some (token_row w.1)), w);
  invalidate_user_verifications = λ id p w. (ok tt, (w.0, true));
  mark_verification_used = λ id w. (ok tt, (w.0, true));
  profile_db = none;
  prefs_db = none;
  avatar_storage = none;
  email_sender = none;
}

abbrev bcrypt : Bcrypt
bcrypt = record { matches = str_eq; generate = λ salt password. ok password }

memory-UserTable : UserTable memory bcrypt
memory-UserTable = record {
  found_id = λ id u w w' e. ground arith;
  update_found = λ u w w' e. ground arith;
  generate-matches = λ salt password hash e. ground (arith, eq_iff hash password);
}

memory-TokenTable : TokenTable memory
unfolding is_used
memory-TokenTable = record {
  Used = λ w token. w.1 ≡ true;
  mark_Used = λ token v w w1 w2 w3 e f. ground arith;
  update_Used = λ token u w w' h e. ground arith;
  Used_found = λ token w h. (token_row w.1, refl, ground arith);
}

new_user-run-Stamps_example : Stamps (
    run
      (call_suspend 3 "spam" ∷ call_reactivate 4 ∷ call_verify_email 5 ∷ call_soft_delete 6 ∷ [])
      (record ann { password_hash = none; status = pending; email_verified = false }))
unfolding new_user
new_user-run-Stamps_example = new_user-run-Stamps 5 1 "a@b.c" "Ann" _ _ refl

run-can_login_example :
    any is_verify_email (call_set_name 2 "Anna" ∷ call_verify_email 3 ∷ []) ≡ true
unfolding run step verify can_login set_name
run-can_login_example =
    run-can_login (call_set_name 2 "Anna" ∷ call_verify_email 3 ∷ [])
      (record ann { status = pending; email_verified = false }) refl refl

deleted_user_returns_example :
    let u' =
      run
        (call_suspend 8 "spam" ∷ call_reactivate 9 ∷ [])
        (record ann { status = deleted; deleted_at = some 7 }) in
    (can_login u' ≡ true) × (u'.deleted_at ≡ some 7)
deleted_user_returns_example =
    deleted_user_returns 8 9 "spam" (record ann { status = deleted; deleted_at = some 7 }) refl refl
      refl

change_password_lem_example :
    (long_enough "new password" ≡ true)
    × ((u : User) × (hash : String) × ((memory.find_by_id 5 (ann, false)).0 ≡ ok (some u))
        × (u.password_hash ≡ some hash)
        × (str_eq hash "old password" ≡ true))
    × HasPassword memory bcrypt 5 "new password"
        (record ann { password_hash = some "new password" }, false)
unfolding change_password get_user hash_password
change_password_lem_example =
    change_password_lem memory bcrypt memory-UserTable 0 5 "old password" "new password"
      (ann, false) (record ann { password_hash = some "new password" }, false) refl

abbrev fresh : Fresh
fresh = record { token_id = 3; token = ok "t" }

abbrev input : RegisterInput
input = record { email = "b@b.c"; password = "long password"; name = "Bob" }

abbrev row_of : World → ℕ → Option User
row_of w id = if w.0.id == id then some w.0 else none

memory-RegisteredRows : RegisteredRows memory row_of
memory-RegisteredRows = record {
  create_row = λ u w w' e. ground arith;
  verification_keeps = λ x id w. refl;
  email_keeps = λ s email name token id w e. absurd (no_sender e);
}
  where
    no_sender : {A : Type 0} {x : A} → ◌≡◌ {A = Option A} none (some x) → ⊥
    no_sender e = cc

register_lem_example :
    (row_of (new_row 6 2 input "long password", false) 6 ≡ some (new_row 6 2 input "long password"))
    × (is_taken (memory.find_by_email "b@b.c" (ann, false)).0 ≡ false)
    × (long_enough "long password" ≡ true)
    × (input.email ≡ input.email)
    × (can_login (new_row 6 2 input "long password") ≡ false)
    × (can_login (verified (new_row 6 2 input "long password")) ≡ true)
    × ((hash : String) × (some "long password" ≡ some hash) × (str_eq hash "long password" ≡ true))
unfolding register check_email hash_password send_verification_email send
register_lem_example =
    register_lem memory bcrypt memory-UserTable memory-RegisteredRows fresh 0 6 2 input
      (new_row 6 2 input "long password") (ann, false) (new_row 6 2 input "long password", false)
      refl

token_used_once_example :
    let w' : World = (record ann { password_hash = some "new password" }, true) in
    ((reset_password memory bcrypt 0 20 "t" "newer password" w').0 ≡ fails_with token_already_used)
    × ((verify_email memory 20 "t" w').0 ≡ fails_with token_already_used)
unfolding reset_password check_token user_of_token hash_password is_used is_expired
token_used_once_example =
    token_used_once memory memory-TokenTable bcrypt 0 0 10 20 "t" "new password" "newer password"
      (ann, false) (record ann { password_hash = some "new password" }, true) (inl refl) refl
