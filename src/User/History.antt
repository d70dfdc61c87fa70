-- ===== src/User/History.antt =====
-- What a user went through shows in the status, the timestamps and the right to log in.
use uniedit_server.Common.{
  ◌≡◌, ◌≢◌, ◌⊎◌, false, none, arith, List, ℕ, String, any, true, ◌∷◌, Bool-cases, ok, inl, [], inr,
  ◌∙◌, any_here, any_skip, sym,
}
use uniedit_server.User.Model.{User, active, pending, suspended, deleted, UserStatus_Eq, can_login}
use uniedit_server.User.Aggregate.{
  set_password_hash, set_name, set_avatar_url, verify_email, suspend, reactivate, soft_delete,
  set_admin_status, new_user,
}
use uniedit_server.User.Calls.{
  Call, step, is_reactivate, is_verify_email, run, call_suspend, call_reactivate,
}

-- The timestamps and the mark of verification fit the status.
abbrev pub Stamps : User → Type 0
Stamps u =
    (u.status ≡ suspended → (u.suspended_at ≢ none) × (u.suspend_reason ≢ none))
    × (u.status ≡ deleted → u.deleted_at ≢ none)
    × ((u.status ≡ active) ⊎ (u.status ≡ pending)
        → (u.suspended_at ≡ none) × (u.suspend_reason ≡ none))
    × (u.status ≡ pending → u.email_verified ≡ false)

step-Stamps : (c : Call) (u : User) → Stamps u → Stamps (step c u)
unfolding step set_password_hash set_name set_avatar_url verify_email suspend reactivate soft_delete
    set_admin_status
step-Stamps c u h = ground arith

run-Stamps : (calls : List Call) (u : User) → Stamps u → Stamps (run calls u)
unfolding run
run-Stamps [] u h = h
run-Stamps (c ∷ calls) u h = run-Stamps calls (step c u) (step-Stamps c u h)

-- Over any history of a user that `NewUser` made: a suspended user has the time and the reason of it, a
-- deleted one the time of the deletion, an active or pending one neither time nor reason of a
-- suspension, and a pending one no verified email.
pub new_user-run-Stamps :
    (new_id now : ℕ) (email name : String) (u : User) (calls : List Call)
    → new_user new_id now email name ≡ ok u
    → Stamps (run calls u)
unfolding new_user
new_user-run-Stamps new_id now email name u calls e = run-Stamps calls u (ground arith)

step-email_verified :
    (c : Call) (u : User) → is_verify_email c ≡ false → (step c u).email_verified ≡ u.email_verified
unfolding step set_password_hash set_name set_avatar_url verify_email suspend reactivate soft_delete
    set_admin_status
step-email_verified c u e = ground arith

-- A user whose email is not verified logs in only after a call of `VerifyEmail`.
pub run-can_login :
    (calls : List Call) (u : User)
    → u.email_verified ≡ false
    → can_login (run calls u) ≡ true
    → any is_verify_email calls ≡ true
unfolding run can_login
run-can_login [] u e h = ground arith
run-can_login (c ∷ calls) u e h = elim (Bool-cases (is_verify_email c)) [
  | inl y ↦ any_here is_verify_email c calls y
  | inr n ↦
      any_skip is_verify_email c calls n
      ∙ run-can_login calls (step c u) (step-email_verified c u n ∙ e) h
]

-- Suspended or deleted.
abbrev pub Locked : User → Type 0
Locked u = (u.status ≡ suspended) ⊎ (u.status ≡ deleted)

step-Locked : (c : Call) (u : User) → is_reactivate c ≡ false → Locked u → Locked (step c u)
unfolding step set_password_hash set_name set_avatar_url verify_email suspend reactivate soft_delete
    set_admin_status
step-Locked c u e h = ground arith

-- A suspended or deleted user cannot log in over any history without a call of `Reactivate`.
pub run-Locked_out :
    (calls : List Call) (u : User)
    → any is_reactivate calls ≡ false
    → Locked u
    → can_login (run calls u) ≡ false
unfolding run can_login
run-Locked_out [] u e h = ground arith
run-Locked_out (c ∷ calls) u e h = elim (Bool-cases (is_reactivate c)) [
  | inl y ↦ absurd (ground (arith, any_here is_reactivate c calls y, e))
  | inr n ↦
      run-Locked_out calls (step c u) (sym (any_skip is_reactivate c calls n) ∙ e)
        (step-Locked c u n h)
]

-- A deleted user with a verified email who is no admin can log in again after a suspension and a
-- reactivation, and still carries the time of the deletion.
pub deleted_user_returns :
    (t t' : ℕ) (reason : String) (u : User)
    → u.status ≡ deleted
    → u.is_admin ≡ false
    → u.email_verified ≡ true
    → let u' = run (call_suspend t reason ∷ call_reactivate t' ∷ []) u in
      (can_login u' ≡ true) × (u'.deleted_at ≡ u.deleted_at)
unfolding run step suspend reactivate can_login
deleted_user_returns t t' reason u a b c = (ground arith, ground arith)
