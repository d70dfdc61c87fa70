-- ===== src/User/Calls.antt =====
-- A history of calls of a user: each method that changes one, with its arguments. A call that returns an error leaves
-- the user that its method returns.
use uniedit_server.Common.{ℕ, String, Bool, true, false, List, [], ◌∷◌}
use uniedit_server.User.Model.{User}
use uniedit_server.User.Aggregate.{
  set_password_hash, set_name, set_avatar_url, verify_email, suspend, reactivate, soft_delete,
  set_admin_status,
}

pub data Call : Type 0 where
  call_set_password_hash : ℕ → String → Call
  call_set_name : ℕ → String → Call
  call_set_avatar_url : ℕ → String → Call
  call_verify_email : ℕ → Call
  call_suspend : ℕ → String → Call
  call_reactivate : ℕ → Call
  call_soft_delete : ℕ → Call
  call_set_admin_status : ℕ → Bool → Call

unfoldable pub step : Call → User → User
step (call_set_password_hash now hash) u = set_password_hash now hash u
step (call_set_name now name) u = set_name now name u
step (call_set_avatar_url now url) u = set_avatar_url now url u
step (call_verify_email now) u = (verify_email now u).0
step (call_suspend now reason) u = (suspend now reason u).0
step (call_reactivate now) u = (reactivate now u).0
step (call_soft_delete now) u = (soft_delete now u).0
step (call_set_admin_status now b) u = set_admin_status now b u

unfoldable pub run : List Call → User → User
run [] u = u
run (c ∷ calls) u = run calls (step c u)

abbrev pub is_verify_email : Call → Bool
is_verify_email (call_verify_email now) = true
is_verify_email _ = false

abbrev pub is_reactivate : Call → Bool
is_reactivate (call_reactivate now) = true
is_reactivate _ = false
