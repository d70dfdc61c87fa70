-- ===== src/Git/Levels.antt =====
-- A permission grants the lower ones.
use uniedit_server.Common.{◌≡◌, ℕ, ℕ_Eq, true, Option, returns, arith}
use uniedit_server.Git.Model.{GitPermission, GitPermission_Eq}
use uniedit_server.Git.Ports.{Ports}
use uniedit_server.Git.Access.{has_permission, can_access}

has_permission_lower :
    (granted high low : GitPermission)
    → has_permission high low ≡ true
    → has_permission granted high ≡ true
    → has_permission granted low ≡ true
unfolding has_permission
has_permission_lower granted high low a b = ground arith

module _ {W : Type 0} (d : Ports W) where
  -- In one world, a user (or an anonymous one) who has access to a
  -- repository with some permission also has it with every permission that this one grants.
  pub can_access_lower :
      (repo_id : ℕ) (user_id : Option ℕ) (high low : GitPermission) (w w' : W)
      → has_permission high low ≡ true
      → can_access d repo_id user_id high w ≡ (returns true, w')
      → (can_access d repo_id user_id low w).0 ≡ returns true
  unfolding can_access has_permission
  can_access_lower repo_id user_id high low w w' a b = ground arith
