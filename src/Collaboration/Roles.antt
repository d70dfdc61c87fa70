-- ===== src/Collaboration/Roles.antt =====
-- internal/domain/collaboration/roles.go: what a role may do. The git permissions of a role are
-- those of the git domain.
use uniedit_server.Common.{ℕ, leb, Bool, true, false, not, ◌||◌, ◌==◌, if◌then◌else◌, List, [], ◌∷◌}
use uniedit_server.Git.Model.{GitPermission, read, write, admin as git_admin}
use uniedit_server.Collaboration.Model.{TeamRole, owner, admin, member, guest, other, TeamRole_Eq}

-- `perm_other` is any other number.
pub data Permission : Type 0 where
  perm_view perm_invite perm_remove_member perm_update_role : Permission
  perm_update_team perm_delete_team perm_other : Permission

-- The map `roleLevel`, and 0 for a missing key.
unfoldable pub role_level : TeamRole → ℕ
role_level owner = 100
role_level admin = 75
role_level member = 50
role_level guest = 25
role_level (other s) = 0

unfoldable pub role_is_at_least : TeamRole → TeamRole → Bool
role_is_at_least r s = leb (role_level s) (role_level r)

unfoldable pub role_can_assign : TeamRole → TeamRole → Bool
role_can_assign r target =
    if r == owner
    then not (target == owner)
    else if r == admin
    then target == admin || target == member || target == guest
    else false

unfoldable pub role_has_permission : TeamRole → Permission → Bool
role_has_permission r perm_view = true
role_has_permission r perm_invite = r == owner || r == admin
role_has_permission r perm_remove_member = r == owner || r == admin
role_has_permission r perm_update_role = r == owner || r == admin
role_has_permission r perm_update_team = r == owner || r == admin
role_has_permission r perm_delete_team = r == owner
role_has_permission r perm_other = false

abbrev pub valid_invite_roles : List TeamRole
valid_invite_roles = admin ∷ member ∷ guest ∷ []

-- The loop of `IsValidInviteRole`.
abbrev pub is_among : TeamRole → List TeamRole → Bool
is_among r [] = false
is_among r (valid ∷ rest) = if r == valid then true else is_among r rest

unfoldable pub is_valid_invite_role : TeamRole → Bool
is_valid_invite_role r = is_among r valid_invite_roles

unfoldable pub to_git_permission : TeamRole → GitPermission
to_git_permission owner = git_admin
to_git_permission admin = git_admin
to_git_permission member = write
to_git_permission guest = read
to_git_permission (other s) = read
