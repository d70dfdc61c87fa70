-- ===== src/Collaboration/Invitations.antt =====
-- internal/domain/collaboration/domain.go: the operations on invitations.
use uniedit_server.Common.{
  ℕ, ℤ, pos_part, ◌+◌, le_ℤ, not, true, false, String, String_Eq, ◌==◌, if◌then◌else◌, Option, none,
  some, List, map, Result, ok, err, ◌>>=◌, ◌>>◌, give, raise, require, try, call,
}
use uniedit_server.Collaboration.Model.{
  TeamRole, Team, TeamMember, TeamInvitation, InvitationStatus, pending, accepted, rejected,
  revoked, expired, is_expired, is_pending, UserInfo, CollaborationError, already_member,
  member_limit_exceeded, insufficient_permission, invalid_role, invitation_expired,
  invitation_already_processed, invitation_already_pending, invitation_not_for_you,
  cannot_revoke_processed,
}
use uniedit_server.Collaboration.Roles.{
  role_can_assign, role_has_permission, is_valid_invite_role, perm_invite,
}
use uniedit_server.Collaboration.Ports.{Ports, Collaborates}
use uniedit_server.Collaboration.Views.{
  Config, Texts, InviteInput, InvitationOutput, TeamOutput, team_to_output, invitation_to_output,
  clamp_limit, generate_secure_token,
}
use uniedit_server.Collaboration.Teams.{
  same, no_permission, is_member_not_found, count_members, new_member,
}

module _ {W : Type 0} where
  abbrev pub not_member : Result CollaborationError TeamMember → Collaborates W (Unit {0})
  not_member (ok m) = raise already_member
  not_member (err e) = require (is_member_not_found e) e

  abbrev pub none_pending : Option TeamInvitation → Collaborates W (Unit {0})
  none_pending none = give tt
  none_pending (some i) = raise invitation_already_pending

abbrev pub id_of : Option UserInfo → Option ℕ
id_of none = none
id_of (some u) = some u.id

abbrev pub inviter_of : Result CollaborationError (Option UserInfo) → Option UserInfo
inviter_of (ok u) = u
inviter_of (err e) = none

module _ {W : Type 0} (d : Ports W) (x : Texts) (cfg : Config) where
  -- A user with the email who is known is not yet a member.
  unfoldable pub check_user : ℕ → Option UserInfo → Collaborates W (Unit {0})
  check_user team_id none = give tt
  check_user team_id (some user) = do
    member ← try (d.find_member team_id user.id)
    not_member member

  abbrev pub new_invitation :
      ℕ → ℕ → ℕ → ℕ → String → Option UserInfo → TeamRole → String → TeamInvitation
  new_invitation new_id now team_id inviter_id email user role token = record {
    id = new_id;
    team_id = team_id;
    inviter_id = inviter_id;
    invitee_email = email;
    invitee_id = id_of user;
    role = role;
    token = token;
    status = pending;
    expires_at = now + pos_part cfg.invitation_expiry;
    created_at = now;
    accepted_at = none;
    team = none;
    inviter = none;
  }

  -- The checks of `SendInvitation` on the inviter and the role, up to the team.
  unfoldable pub may_invite : ℕ → ℕ → TeamRole → Collaborates W (Unit {0})
  may_invite team_id inviter_id role = do
    inviter ← call no_permission (d.find_member team_id inviter_id)
    require (role_has_permission inviter.role perm_invite) insufficient_permission
    require (is_valid_invite_role role) invalid_role
    require (role_can_assign inviter.role role) insufficient_permission

  -- There is room for one more member.
  unfoldable pub check_limit : Team → ℕ → Collaborates W (Unit {0})
  check_limit team team_id = do
    member_count ← call same (d.count team_id)
    require (not (le_ℤ team.member_limit member_count)) member_limit_exceeded

  -- The name of the inviter is left out where the lookup fails.
  unfoldable pub find_inviter : ℕ → Collaborates W (Option UserInfo)
  find_inviter inviter_id = do user ← try (d.user_by_id inviter_id); give (inviter_of user)

  -- The rest of `SendInvitation`, for a normalized email.
  unfoldable pub invite :
      Result CollaborationError (List ℕ)
      → ℕ
      → ℕ
      → ℕ
      → ℕ
      → TeamRole
      → Team
      → String
      → Collaborates W InvitationOutput
  invite random new_id now team_id inviter_id role team email = do
    user ← call same (d.user_by_email email)
    check_user team_id user
    existing ← call same (d.find_pending_by_email team_id email)
    none_pending existing
    token ← generate_secure_token x random (pos_part cfg.invitation_token_length)
    let invitation = new_invitation new_id now team_id inviter_id email user role token
    call same (d.create_invitation invitation)
    inviter_user ← find_inviter inviter_id
    give (
        invitation_to_output cfg (record invitation { team = some team; inviter = inviter_user })
          true)

  unfoldable pub send_invitation :
      Result CollaborationError (List ℕ)
      → ℕ
      → ℕ
      → ℕ
      → ℕ
      → InviteInput
      → Collaborates W InvitationOutput
  send_invitation random new_id now team_id inviter_id input = do
    may_invite team_id inviter_id input.role
    team ← call same (d.find_team team_id)
    check_limit team team_id
    invite random new_id now team_id inviter_id input.role team
        (x.to_lower (x.trim_space input.email))

  unfoldable pub list_team_invitations :
      ℕ → ℕ → Option InvitationStatus → ℤ → ℤ → Collaborates W (List InvitationOutput)
  list_team_invitations team_id requester_id status limit offset = do
    member ← call no_permission (d.find_member team_id requester_id)
    require (role_has_permission member.role perm_invite) insufficient_permission
    invitations ← call same (d.find_by_team team_id status (clamp_limit limit) offset)
    give (map (λ inv. invitation_to_output cfg inv false) invitations)

  unfoldable pub list_my_invitations : String → ℤ → ℤ → Collaborates W (List InvitationOutput)
  list_my_invitations email limit offset = do
    invitations ← call same (d.find_by_email email (some pending) (clamp_limit limit) offset)
    give (map (λ inv. invitation_to_output cfg inv true) invitations)

  -- The checks that `AcceptInvitation` and `RejectInvitation` share: the invitation is for this user
  -- and pending.
  unfoldable pub check_invitee : TeamInvitation → String → Collaborates W (Unit {0})
  check_invitee invitation user_email = do
    require (x.to_lower invitation.invitee_email == x.to_lower user_email) invitation_not_for_you
    require (is_pending invitation) invitation_already_processed

  -- The mark of a late invitation is tried.
  unfoldable pub mark_expired : ℕ → Collaborates W (Unit {0})
  mark_expired id = do marked ← try (d.update_status id expired); give tt

  -- An invitation that is late is marked, whether or not the mark can be stored.
  unfoldable pub check_expiry : ℕ → TeamInvitation → Collaborates W (Unit {0})
  check_expiry now invitation =
      if is_expired now invitation
      then (do mark_expired invitation.id; raise invitation_expired)
      else give tt

  -- What `AcceptInvitation` runs in a transaction.
  unfoldable pub join_team : ℕ → TeamInvitation → Team → ℕ → Collaborates W (Unit {0})
  join_team now invitation team user_id = do
    check_limit team team.id
    call same (d.add_member (new_member now team.id user_id invitation.role))
    call same (d.update_status invitation.id accepted)

  unfoldable pub accept_invitation : ℕ → String → ℕ → String → Collaborates W TeamOutput
  accept_invitation now token user_id user_email = do
    invitation ← call same (d.find_by_token token)
    check_invitee invitation user_email
    check_expiry now invitation
    team ← call same (d.find_team invitation.team_id)
    d.run_in_transaction (join_team now invitation team user_id)
    member_count ← count_members d team.id
    give (team_to_output team member_count (some invitation.role))

  unfoldable pub reject_invitation : String → String → Collaborates W (Unit {0})
  reject_invitation token user_email = do
    invitation ← call same (d.find_by_token token)
    check_invitee invitation user_email
    call same (d.update_status invitation.id rejected)

  unfoldable pub revoke_invitation : ℕ → ℕ → Collaborates W (Unit {0})
  revoke_invitation invitation_id requester_id = do
    invitation ← call same (d.find_invitation invitation_id)
    member ← call no_permission (d.find_member invitation.team_id requester_id)
    require (role_has_permission member.role perm_invite) insufficient_permission
    require (is_pending invitation) cannot_revoke_processed
    call same (d.update_status invitation_id revoked)
