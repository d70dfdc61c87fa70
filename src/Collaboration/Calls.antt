-- ===== src/Collaboration/Calls.antt =====
-- A history of calls of the service: each call that writes, with its arguments.
use uniedit_server.Common.{ℕ, String, List, [], ◌∷◌, Result}
use uniedit_server.Collaboration.Model.{TeamRole, CollaborationError}
use uniedit_server.Collaboration.Ports.{Ports}
use uniedit_server.Collaboration.Views.{
  Config, Texts, CreateTeamInput, UpdateTeamInput, InviteInput,
}
use uniedit_server.Collaboration.Teams.{create_team, update_team, delete_team}
use uniedit_server.Collaboration.Members.{update_member_role, remove_member, leave_team}
use uniedit_server.Collaboration.Invitations.{
  send_invitation, accept_invitation, reject_invitation, revoke_invitation,
}

-- The id of a created team comes first.
pub data Call : Type 0 where
  call_create_team : ℕ → ℕ → ℕ → CreateTeamInput → Call
  call_update_team : ℕ → ℕ → ℕ → UpdateTeamInput → Call
  call_delete_team : ℕ → ℕ → Call
  call_update_member_role : ℕ → ℕ → ℕ → TeamRole → Call
  call_remove_member : ℕ → ℕ → ℕ → Call
  call_leave_team : ℕ → ℕ → Call
  call_send_invitation : Result CollaborationError (List ℕ) → ℕ → ℕ → ℕ → ℕ → InviteInput → Call
  call_accept_invitation : ℕ → String → ℕ → String → Call
  call_reject_invitation : String → String → Call
  call_revoke_invitation : ℕ → ℕ → Call

module _ {W : Type 0} (d : Ports W) (x : Texts) (cfg : Config) where
  unfoldable pub step : Call → W → W
  step (call_create_team i now u input) w = (create_team d x cfg i now u input w).1
  step (call_update_team now t u input) w = (update_team d x cfg now t u input w).1
  step (call_delete_team t u) w = (delete_team d x cfg t u w).1
  step (call_update_member_role t u r role) w = (update_member_role d t u r role w).1
  step (call_remove_member t u r) w = (remove_member d t u r w).1
  step (call_leave_team t u) w = (leave_team d t u w).1
  step (call_send_invitation b i now t u input) w = (send_invitation d x cfg b i now t u input w).1
  step (call_accept_invitation now s u e) w = (accept_invitation d x cfg now s u e w).1
  step (call_reject_invitation s e) w = (reject_invitation d x cfg s e w).1
  step (call_revoke_invitation i u) w = (revoke_invitation d x cfg i u w).1

  unfoldable pub run : List Call → W → W
  run [] w = w
  run (c ∷ calls) w = run calls (step c w)
