-- ===== src/Collaboration/History.antt =====
-- Over any history of calls, the only owner of a team stays its only owner.
use uniedit_server.Common.{◌≢◌, ℕ, List, [], ◌∷◌, All}
use uniedit_server.Collaboration.Ports.{Ports}
use uniedit_server.Collaboration.Views.{Config, Texts}
use uniedit_server.Collaboration.Table.{Rows, Table}
use uniedit_server.Collaboration.Ownership.{Owned}
use uniedit_server.Collaboration.Ownership.Teams.{
  create_team-Safe, update_team-Safe, delete_team-Safe,
}
use uniedit_server.Collaboration.Ownership.Members.{
  update_member_role-Safe, remove_call-Safe, leave_team-Safe,
}
use uniedit_server.Collaboration.Ownership.Invitations.{
  send_invitation-Safe, accept_invitation-Safe, reject_invitation-Safe, revoke_invitation-Safe,
}
use uniedit_server.Collaboration.Calls.{
  Call, call_create_team, call_update_team, call_delete_team, call_update_member_role,
  call_remove_member, call_leave_team, call_send_invitation, call_accept_invitation,
  call_reject_invitation, call_revoke_invitation, step, run,
}

-- A call that creates a team takes a new id.
abbrev pub Fresh : ℕ → Call → Type 0
Fresh team (call_create_team i now u input) = team ≢ i
Fresh team _ = Unit

module _ {W : Type 0} {d : Ports W} {v : Rows W} (t : Table d v) (x : Texts) (cfg : Config) where
  pub step-Owned :
      (team user : ℕ) (c : Call) (w : W)
      → Fresh team c
      → Owned v team user w
      → Owned v team user (step d x cfg c w)
  unfolding step
  step-Owned g o (call_create_team i now u input) w f k =
      ((create_team-Safe t g o x cfg i now u input f).safe w k).0
  step-Owned g o (call_update_team now i u input) w f k =
      ((update_team-Safe t g o x cfg now i u input).safe w k).0
  step-Owned g o (call_delete_team i u) w f k = ((delete_team-Safe t g o x cfg i u).safe w k).0
  step-Owned g o (call_update_member_role i u r role) w f k =
      ((update_member_role-Safe t g o i u r role).safe w k).0
  step-Owned g o (call_remove_member i u r) w f k = ((remove_call-Safe t g o i u r).safe w k).0
  step-Owned g o (call_leave_team i u) w f k = ((leave_team-Safe t g o i u).safe w k).0
  step-Owned g o (call_send_invitation b i now j u input) w f k =
      ((send_invitation-Safe t g o x cfg b i now j u input).safe w k).0
  step-Owned g o (call_accept_invitation now s u e) w f k =
      ((accept_invitation-Safe t g o x cfg now s u e).safe w k).0
  step-Owned g o (call_reject_invitation s e) w f k =
      ((reject_invitation-Safe t g o x cfg s e).safe w k).0
  step-Owned g o (call_revoke_invitation i u) w f k =
      ((revoke_invitation-Safe t g o x cfg i u).safe w k).0

  -- Where the database keeps its promises, a user who is the only owner of a team, while nobody is
  -- invited to be an owner, stays its only owner over any history of calls by whomever, as long as
  -- new teams get new ids: nobody demotes or removes the owner, not even the owner, and nobody else
  -- becomes one.
  pub run-Owned :
      (team user : ℕ) (calls : List Call) (w : W)
      → All (Fresh team) calls
      → Owned v team user w
      → Owned v team user (run d x cfg calls w)
  unfolding run
  run-Owned g o [] w f k = k
  run-Owned g o (c ∷ calls) w f k =
      run-Owned g o calls (step d x cfg c w) f.1 (step-Owned g o c w f.0 k)
