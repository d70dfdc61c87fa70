-- ===== src/Collaboration/Members.antt =====
-- internal/domain/collaboration/domain.go: the operations on members.
use uniedit_server.Common.{
  ℕ, ℕ_Eq, not, ◌==◌, if◌then◌else◌, List, map, ◌>>=◌, ◌>>◌, give, require, call,
}
use uniedit_server.Collaboration.Model.{
  TeamRole, owner, TeamRole_Eq, TeamMemberWithUser, cannot_change_owner, cannot_remove_owner,
  only_owner_can_transfer, insufficient_permission,
}
use uniedit_server.Collaboration.Roles.{
  role_can_assign, role_has_permission, perm_update_role, perm_remove_member,
}
use uniedit_server.Collaboration.Ports.{Ports, Collaborates}
use uniedit_server.Collaboration.Views.{MemberOutput}
use uniedit_server.Collaboration.Teams.{same, no_permission}

abbrev pub member_to_output : TeamMemberWithUser → MemberOutput
member_to_output m = record {
  user_id = m.member.user_id;
  email = m.email;
  name = m.name;
  role = m.member.role;
  joined_at = m.member.joined_at;
}

module _ {W : Type 0} (d : Ports W) where
  unfoldable pub list_members : ℕ → ℕ → Collaborates W (List MemberOutput)
  list_members team_id requester_id = do
    requester ← call no_permission (d.find_member team_id requester_id)
    members ← call same (d.find_by_team_with_users team_id)
    give (map member_to_output members)

  unfoldable pub update_member_role : ℕ → ℕ → ℕ → TeamRole → Collaborates W (Unit {0})
  update_member_role team_id target_user_id requester_id new_role = do
    requester ← call no_permission (d.find_member team_id requester_id)
    require (role_has_permission requester.role perm_update_role) insufficient_permission
    target ← call same (d.find_member team_id target_user_id)
    require (not (target.role == owner)) cannot_change_owner
    require (not (new_role == owner)) only_owner_can_transfer
    require (role_can_assign requester.role new_role) insufficient_permission
    call same (d.update_role team_id target_user_id new_role)

  -- The check of a requester who removes another member.
  unfoldable pub may_remove : ℕ → ℕ → ℕ → Collaborates W (Unit {0})
  may_remove team_id target_user_id requester_id =
      if not (target_user_id == requester_id)
      then (do
        requester ← call no_permission (d.find_member team_id requester_id)
        require (role_has_permission requester.role perm_remove_member) insufficient_permission)
      else give tt

  unfoldable pub remove_member : ℕ → ℕ → ℕ → Collaborates W (Unit {0})
  remove_member team_id target_user_id requester_id = do
    target ← call same (d.find_member team_id target_user_id)
    require (not (target.role == owner)) cannot_remove_owner
    may_remove team_id target_user_id requester_id
    call same (d.remove_member team_id target_user_id)

  unfoldable pub leave_team : ℕ → ℕ → Collaborates W (Unit {0})
  leave_team team_id user_id = do
    member ← call same (d.find_member team_id user_id)
    require (not (member.role == owner)) cannot_remove_owner
    call same (d.remove_member team_id user_id)
