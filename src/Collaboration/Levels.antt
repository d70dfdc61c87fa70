-- ===== src/Collaboration/Levels.antt =====
-- The order of roles, what it lets a role assign, and the permissions on git that it grants.
use uniedit_server.Common.{◌≡◌, ◌≢◌, ℕ, true, ok, call, arith}
use uniedit_server.Git.Access.{has_permission}
use uniedit_server.Collaboration.Model.{TeamRole, owner, admin, TeamMember}
use uniedit_server.Collaboration.Roles.{
  role_level, role_is_at_least, role_can_assign, role_has_permission, perm_update_role, perm_invite,
  to_git_permission,
}
use uniedit_server.Collaboration.Ports.{Ports}
use uniedit_server.Collaboration.Members.{update_member_role}
use uniedit_server.Collaboration.Teams.{same}

-- A role that can assign another one may update roles and invite; what it assigns is never an owner and
-- never above itself.
pub role_can_assign_lem :
    (r s : TeamRole)
    → role_can_assign r s ≡ true
    → (role_has_permission r perm_update_role ≡ true)
      × (role_has_permission r perm_invite ≡ true)
      × (s ≢ owner)
      × (role_is_at_least r s ≡ true)
unfolding role_can_assign role_has_permission role_is_at_least role_level
role_can_assign_lem r s e = (ground arith, ground arith, λ n. ground arith, ground arith)

-- A role on at least the level of another one gets a permission on git that grants the other's.
pub to_git_permission_le :
    (r s : TeamRole)
    → role_is_at_least r s ≡ true
    → role_level s ≢ 0
    → has_permission (to_git_permission r) (to_git_permission s) ≡ true
unfolding role_is_at_least role_level has_permission to_git_permission
to_git_permission_le r s e n = ground arith

module _ {W : Type 0} (d : Ports W) where
  -- An admin makes any member who is not the owner an admin: when both are found, `UpdateMemberRole` ends
  -- with the update of the role.
  pub admin_promotes :
      (i u r : ℕ) (m n : TeamMember) (w w1 w2 : W)
      → d.find_member i r w ≡ (ok m, w1)
      → d.find_member i u w1 ≡ (ok n, w2)
      → m.role ≡ admin
      → n.role ≢ owner
      → update_member_role d i u r admin w ≡ call same (d.update_role i u admin) w2
  unfolding update_member_role role_has_permission role_can_assign
  admin_promotes i u r m n w w1 w2 a b c e = ground (arith, a, b, c, e)
