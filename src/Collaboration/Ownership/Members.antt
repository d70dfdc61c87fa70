-- ===== src/Collaboration/Ownership/Members.antt =====
-- The operations on members keep the one owner of a team.
use uniedit_server.Common.{
  ℕ, ℕ_Eq, not, ◌==◌, String_Eq, Safe, Any, Safe-give, Safe-require, Safe-call, Safe-bind, Safe-if,
  Safe-weaken, Safe-call_then, Safe-require_then,
}
use uniedit_server.Collaboration.Model.{TeamRole, TeamRole_Eq}
use uniedit_server.Collaboration.Roles.{
  role_has_permission, perm_update_role, perm_remove_member, role_can_assign,
}
use uniedit_server.Collaboration.Ports.{Ports}
use uniedit_server.Collaboration.Table.{Rows, Table}
use uniedit_server.Collaboration.Ownership.{
  Owned, not_owner, member-Safe, update_role-Safe, remove_member-Safe,
}
use uniedit_server.Collaboration.Members.{update_member_role, remove_member, leave_team, may_remove}

module _ {W : Type 0} {d : Ports W} {v : Rows W} (t : Table d v) (team user : ℕ) where
  pub leave_team-Safe : (i u : ℕ) → Safe (Owned v team user) (leave_team d i u) Any
  unfolding leave_team
  leave_team-Safe i u = Safe-call_then _ (member-Safe t team user i u) (λ m q.
      Safe-require_then _ _
        (λ e. Safe-call _ _ (remove_member-Safe t team user i u (q (not_owner _ e)))))

  pub update_member_role-Safe :
      (i u r : ℕ) (role : TeamRole) → Safe (Owned v team user) (update_member_role d i u r role) Any
  unfolding update_member_role
  update_member_role-Safe i u r role = Safe-call_then _ (member-Safe t team user i r) (λ m q.
      Safe-require_then (role_has_permission m.role perm_update_role) _ (λ a.
        Safe-call_then _ (member-Safe t team user i u) (λ n p. Safe-require_then _ _ (λ b.
          Safe-require_then _ _ (λ c. Safe-require_then (role_can_assign m.role role) _ (λ e.
            Safe-call _ _
              (update_role-Safe t team user i u role (p (not_owner _ b)) (not_owner _ c))))))))

  may_remove-Safe : (i u r : ℕ) → Safe (Owned v team user) (may_remove d i u r) Any
  unfolding may_remove
  may_remove-Safe i u r =
      Safe-if (not (u == r))
        (Safe-call_then _ (member-Safe t team user i r)
          (λ m q. Safe-weaken (Safe-require (role_has_permission m.role perm_remove_member) _)))
        (Safe-give _ tt)

  pub remove_call-Safe : (i u r : ℕ) → Safe (Owned v team user) (remove_member d i u r) Any
  unfolding remove_member
  remove_call-Safe i u r = Safe-call_then _ (member-Safe t team user i u) (λ m q.
      Safe-require_then _ _ (λ e.
        Safe-bind _ _ (may_remove-Safe i u r)
          (λ b p. Safe-call _ _ (remove_member-Safe t team user i u (q (not_owner _ e))))))
