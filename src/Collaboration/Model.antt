-- ===== src/Collaboration/Model.antt =====
-- internal/model/collaboration.go: teams, their members and invitations, with the errors of
-- internal/domain/collaboration/errors.go. A slice of members that is not loaded is left out, and of the
-- inviter and the users that are looked up only what the service reads is kept.
use uniedit_server.Common.{
  ◌≡◌, ◌↔◌, ℕ, ℤ, ltb, String, Bool, true, false, Option, Eq, str_eq, eq_iff, arith,
}

-- `other s` is a string that is none of the constants; so for the other strings with constants.
pub data TeamRole : Type 0 where
  owner admin member guest : TeamRole
  other : String → TeamRole

abbrev role_eq : TeamRole → TeamRole → Bool
role_eq owner owner = true
role_eq admin admin = true
role_eq member member = true
role_eq guest guest = true
role_eq (other s) (other t) = str_eq s t
role_eq _ _ = false

pub role_eq_iff : (p q : TeamRole) → (role_eq p q ≡ true) ↔ (p ≡ q)
role_eq_iff (other s) (other t) = ground (arith, eq_iff s t)
role_eq_iff p q = ground arith

instance abbrev pub TeamRole_Eq : Eq TeamRole
TeamRole_Eq = record { is_eq = role_eq; is_eq_iff = role_eq_iff }

-- `unset` is the empty string.
pub data TeamVisibility : Type 0 where
  public private unset : TeamVisibility
  other_visibility : String → TeamVisibility

pub data TeamStatus : Type 0 where
  active deleted : TeamStatus
  other_status : String → TeamStatus

pub data InvitationStatus : Type 0 where
  pending accepted rejected revoked expired : InvitationStatus
  other_invitation : String → InvitationStatus

pub record Team : Type 0 where
  pub id : ℕ
  pub owner_id : ℕ
  pub name : String
  pub slug : String
  pub description : String
  pub visibility : TeamVisibility
  pub member_limit : ℤ
  pub status : TeamStatus
  pub created_at : ℕ
  pub updated_at : ℕ

pub record TeamMember : Type 0 where
  pub team_id : ℕ
  pub user_id : ℕ
  pub role : TeamRole
  pub joined_at : ℕ
  pub updated_at : ℕ

pub record TeamMemberWithUser : Type 0 where
  pub member : TeamMember
  pub email : String
  pub name : String

-- What the service reads of `User`.
pub record UserInfo : Type 0 where
  pub id : ℕ
  pub name : String

pub record TeamInvitation : Type 0 where
  pub id : ℕ
  pub team_id : ℕ
  pub inviter_id : ℕ
  pub invitee_email : String
  pub invitee_id : Option ℕ
  pub role : TeamRole
  pub token : String
  pub status : InvitationStatus
  pub expires_at : ℕ
  pub created_at : ℕ
  pub accepted_at : Option ℕ
  pub team : Option Team
  pub inviter : Option UserInfo

-- `IsExpired`, at the time `now`.
unfoldable pub is_expired : ℕ → TeamInvitation → Bool
is_expired now i = ltb i.expires_at now

unfoldable pub is_pending : TeamInvitation → Bool
is_pending i = elim i.status [ pending ↦ true | _ ↦ false ]

pub data CollaborationError : Type 0 where
  team_not_found slug_already_exists team_deleted : CollaborationError
  member_not_found already_member member_limit_exceeded : CollaborationError
  cannot_change_owner cannot_remove_owner : CollaborationError
  only_owner_can_delete only_owner_can_transfer : CollaborationError
  insufficient_permission invalid_role : CollaborationError
  invitation_not_found invitation_expired invitation_already_processed : CollaborationError
  invitation_already_pending invitation_not_for_you cannot_revoke_processed : CollaborationError
  from_port : String → CollaborationError
