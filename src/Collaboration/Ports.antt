-- ===== src/Collaboration/Ports.antt =====
-- internal/port/outbound/collaboration.go: what the service asks of the world `W`. A port answers with
-- the errors of the domain, which the service compares; the lookups of teams, members and invitations
-- report a missing row as an error, the others as `none`. A transaction is a method
-- of the world around another one.
use uniedit_server.Common.{ℕ, ℤ, String, Option, List, PortWith, Service}
use uniedit_server.Collaboration.Model.{
  Team, TeamRole, TeamMember, TeamMemberWithUser, TeamInvitation, InvitationStatus, UserInfo,
  CollaborationError,
}

abbrev pub CollaborationPort : Type 0 → Type 0 → Type 0
CollaborationPort = PortWith CollaborationError

-- A service method, and what a transaction runs.
abbrev pub Collaborates : Type 0 → Type 0 → Type 0
Collaborates W A = Service W CollaborationError A

pub record Ports (W : Type 0) : Type 0 where
  pub create_team : Team → CollaborationPort W (Unit {0})
  pub find_team : ℕ → CollaborationPort W Team
  pub find_by_owner_and_slug : ℕ → String → CollaborationPort W Team
  pub find_by_user : ℕ → ℤ → ℤ → CollaborationPort W (List Team)
  pub update_team : Team → CollaborationPort W (Unit {0})
  pub delete_team : ℕ → CollaborationPort W (Unit {0})
  pub add_member : TeamMember → CollaborationPort W (Unit {0})
  pub find_member : ℕ → ℕ → CollaborationPort W TeamMember
  pub find_by_team_with_users : ℕ → CollaborationPort W (List TeamMemberWithUser)
  pub update_role : ℕ → ℕ → TeamRole → CollaborationPort W (Unit {0})
  pub remove_member : ℕ → ℕ → CollaborationPort W (Unit {0})
  pub count : ℕ → CollaborationPort W ℤ
  pub create_invitation : TeamInvitation → CollaborationPort W (Unit {0})
  pub find_invitation : ℕ → CollaborationPort W TeamInvitation
  pub find_by_token : String → CollaborationPort W TeamInvitation
  pub find_pending_by_email : ℕ → String → CollaborationPort W (Option TeamInvitation)
  pub find_by_team : ℕ → Option InvitationStatus → ℤ → ℤ → CollaborationPort W (List TeamInvitation)
  pub find_by_email :
      String → Option InvitationStatus → ℤ → ℤ → CollaborationPort W (List TeamInvitation)
  pub update_status : ℕ → InvitationStatus → CollaborationPort W (Unit {0})
  pub cancel_pending_by_team : ℕ → CollaborationPort W (Unit {0})
  pub user_by_email : String → CollaborationPort W (Option UserInfo)
  pub user_by_id : ℕ → CollaborationPort W (Option UserInfo)
  pub run_in_transaction : Collaborates W (Unit {0}) → Collaborates W (Unit {0})
