-- ===== src/User/Service/Admin.antt =====
-- internal/domain/user/domain.go: the operations of an administrator on a user.
use uniedit_server.Common.{
  ℕ, String, Bool, not, ◌==◌, none, some, Service, ◌>>=◌, ◌>>◌, require, call,
}
use uniedit_server.User.Model.{
  active, suspended, UserStatus_Eq, UserError, cannot_suspend_admin, user_already_active, from_port,
}
use uniedit_server.User.Ports.{Ports}
use uniedit_server.User.Service.Accounts.{get_user}

module _ {W : Type 0} (d : Ports W) where
  unfoldable pub suspend_user : ℕ → ℕ → String → Service W UserError (Unit {0})
  suspend_user now id reason = do
    user ← get_user d id
    require (not user.is_admin) cannot_suspend_admin
    call from_port (
        d.update_user (record user {
          status = suspended;
          suspended_at = some now;
          suspend_reason = some reason;
        }))

  unfoldable pub reactivate_user : ℕ → Service W UserError (Unit {0})
  reactivate_user id = do
    user ← get_user d id
    require (user.status == suspended) user_already_active
    call from_port (
        d.update_user (record user { status = active; suspended_at = none; suspend_reason = none }))

  unfoldable pub set_admin_status : ℕ → Bool → Service W UserError (Unit {0})
  set_admin_status id is_admin = do
    user ← get_user d id
    call from_port (d.update_user (record user { is_admin = is_admin }))

  unfoldable pub admin_delete_user : ℕ → Service W UserError (Unit {0})
  admin_delete_user id = do
    user ← get_user d id
    require (not user.is_admin) cannot_suspend_admin
    call from_port (d.soft_delete id)
