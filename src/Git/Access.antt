-- ===== src/Git/Access.antt =====
-- internal/domain/git/domain.go: who may do what with a repository.
use uniedit_server.Common.{
  ℕ, ℕ_Eq, leb, Bool, true, false, ◌&&◌, ◌==◌, if◌then◌else◌, String, Option, none, some, Result,
  ok, Service, ◌>>=◌, give, require, try, call, found,
}
use uniedit_server.Git.Model.{
  GitPermission, read, write, admin, other, GitPermission_Eq, GitRepo, is_public,
  GitRepoCollaborator, GitError, repo_not_found, access_denied, from_port,
}
use uniedit_server.Git.Ports.{Ports}

-- The map `levels`; `none` is a missing key.
abbrev pub level : GitPermission → Option ℕ
level read = some 1
level write = some 2
level admin = some 3
level (other s) = none

unfoldable pub has_permission : GitPermission → GitPermission → Bool
has_permission granted required = elim (level granted) [
  | none ↦ false
  | some g ↦ elim (level required) [ none ↦ false | some r ↦ leb r g ]
]

-- Neither an error of the lookup nor a missing collaborator grants anything.
abbrev pub granted_to : Result String (Option GitRepoCollaborator) → GitPermission → Bool
granted_to (ok (some c)) required = has_permission c.permission required
granted_to _ required = false

module _ {W : Type 0} (d : Ports W) where
  -- The rest of `CanAccess`, for a user.
  abbrev pub user_access : GitRepo → ℕ → ℕ → GitPermission → Service W GitError Bool
  user_access repo repo_id user_id required = if repo.owner_id == user_id then give true else (do
    collab ← try (d.find_by_repo_and_user repo_id user_id)
    give (granted_to collab required))

  unfoldable pub can_access : ℕ → Option ℕ → GitPermission → Service W GitError Bool
  can_access repo_id user_id required = do
    repo ← found (← call from_port (d.find_repo repo_id)) repo_not_found
    if is_public repo && required == read
        then give true
        else elim user_id [ none ↦ give false | some u ↦ user_access repo repo_id u required ]

  unfoldable pub check_access : ℕ → ℕ → GitPermission → Service W GitError (Unit {0})
  check_access repo_id user_id required = do
    has_access ← can_access repo_id (some user_id) required
    require has_access access_denied
