-- ===== src/Collaboration/Table.antt =====
-- What the database promises about the rows of members and invitations: which member each write
-- changes, and that every other call leaves the roles and the invited roles as they are.
use uniedit_server.Common.{◌≡◌, ◌≢◌, ◌⊎◌, ℕ, String, Option, none, some, ok}
use uniedit_server.Collaboration.Model.{
  TeamRole, Team, TeamMember, TeamInvitation, InvitationStatus,
}
use uniedit_server.Collaboration.Ports.{Ports, Collaborates, CollaborationPort}

-- The role of a user in a team, and whether some invitation offers a role.
pub record Rows (W : Type 0) : Type 1 where
  pub role_of : W → ℕ → ℕ → Option TeamRole
  pub Offers : W → TeamRole → Type 0

module _ {W : Type 0} (v : Rows W) where
  -- The second world has the members of the first one and invites to no other role.
  abbrev pub Keeps : W → W → Type 0
  Keeps w w' =
      ((t u : ℕ) → v.role_of w' t u ≡ v.role_of w t u)
      × ((r : TeamRole) → v.Offers w' r → v.Offers w r)

  -- At most the role of one user in one team changes, and to the given one.
  abbrev pub Sets : ℕ → ℕ → Option TeamRole → W → W → Type 0
  Sets t u r w w' =
      ((t' u' : ℕ)
        → (v.role_of w' t' u' ≡ v.role_of w t' u')
          ⊎ ((t' ≡ t) × (u' ≡ u) × (v.role_of w' t' u' ≡ r)))
      × ((s : TeamRole) → v.Offers w' s → v.Offers w s)

-- A port that changes no role and invites to no other one.
pub record Reads {W A : Type 0} (v : Rows W) (p : CollaborationPort W A) : Type 0 where
  pub keeps : (w : W) → Keeps v w (p w).1

-- The team and the user of a member are the primary key, so an added member was none before; every
-- invitation that is found offers its role; and a transaction ends in the world it began in or the one
-- that its body ended in, as far as members and invitations go.
pub record Table {W : Type 0} (d : Ports W) (v : Rows W) : Type 0 where
  pub add_member :
      (m : TeamMember) (w : W)
      → Sets v m.team_id m.user_id (some m.role) w (d.add_member m w).1
        × (v.role_of w m.team_id m.user_id ≢ none → Keeps v w (d.add_member m w).1)
  pub update_role :
      (t u : ℕ) (r : TeamRole) (w : W) → Sets v t u (some r) w (d.update_role t u r w).1
  pub remove_member : (t u : ℕ) (w : W) → Sets v t u none w (d.remove_member t u w).1
  pub create_invitation :
      (i : TeamInvitation) (w : W)
      → let w' = (d.create_invitation i w).1 in
        ((t u : ℕ) → v.role_of w' t u ≡ v.role_of w t u)
        × ((r : TeamRole) → v.Offers w' r → v.Offers w r ⊎ (r ≡ i.role))
  pub run_in_transaction :
      (f : Collaborates W (Unit {0})) (w : W)
      → Keeps v w (d.run_in_transaction f w).1 ⊎ Keeps v (f w).1 (d.run_in_transaction f w).1
  pub member_found :
      (t u : ℕ) (m : TeamMember) (w : W)
      → (d.find_member t u w).0 ≡ ok m
      → v.role_of w t u ≡ some m.role
  pub token_found :
      (s : String) (i : TeamInvitation) (w : W) → (d.find_by_token s w).0 ≡ ok i → v.Offers w i.role
  pub reads_member : (t u : ℕ) → Reads v (d.find_member t u)
  pub reads_token : (s : String) → Reads v (d.find_by_token s)
  pub reads_invitation : (i : ℕ) → Reads v (d.find_invitation i)
  pub reads_pending : (t : ℕ) (s : String) → Reads v (d.find_pending_by_email t s)
  pub reads_team : (t : ℕ) → Reads v (d.find_team t)
  pub reads_slug : (t : ℕ) (s : String) → Reads v (d.find_by_owner_and_slug t s)
  pub reads_count : (t : ℕ) → Reads v (d.count t)
  pub reads_email : (s : String) → Reads v (d.user_by_email s)
  pub reads_user : (u : ℕ) → Reads v (d.user_by_id u)
  pub writes_team : (t : Team) → Reads v (d.create_team t)
  pub updates_team : (t : Team) → Reads v (d.update_team t)
  pub deletes_team : (t : ℕ) → Reads v (d.delete_team t)
  pub writes_status : (i : ℕ) (s : InvitationStatus) → Reads v (d.update_status i s)
  pub cancels_pending : (t : ℕ) → Reads v (d.cancel_pending_by_team t)
