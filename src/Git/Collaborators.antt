-- ===== src/Git/Collaborators.antt =====
-- internal/domain/git/domain.go: the collaborators of a repository. `time.Now()` is an argument.
use uniedit_server.Common.{ℕ, ℕ_Eq, not, ◌==◌, ◌>>=◌, ◌>>◌, Service, require, call, found}
use uniedit_server.Git.Model.{
  GitPermission, GitRepoCollaborator, GitError, repo_not_found, not_owner, invalid_permission,
  from_port,
}
use uniedit_server.Git.Ports.{Ports}

abbrev pub new_collaborator : ℕ → ℕ → ℕ → GitPermission → GitRepoCollaborator
new_collaborator now repo_id user_id permission = record {
  repo_id = repo_id;
  user_id = user_id;
  permission = permission;
  created_at = now;
}

module _ {W : Type 0} (d : Ports W) where
  -- The repository, if the user owns it.
  abbrev pub owned_repo : ℕ → ℕ → Service W GitError (Unit {0})
  owned_repo repo_id owner_id = do
    repo ← found (← call from_port (d.find_repo repo_id)) repo_not_found
    require (repo.owner_id == owner_id) not_owner

  unfoldable pub add_collaborator : ℕ → ℕ → ℕ → ℕ → GitPermission → Service W GitError (Unit {0})
  add_collaborator now repo_id owner_id target_user_id permission = do
    owned_repo repo_id owner_id
    require (not (target_user_id == owner_id)) invalid_permission
    call from_port (d.add_collaborator (new_collaborator now repo_id target_user_id permission))

  -- The row that `UpdateCollaborator` writes has no time of creation.
  unfoldable pub update_collaborator : ℕ → ℕ → ℕ → GitPermission → Service W GitError (Unit {0})
  update_collaborator repo_id owner_id target_user_id permission = do
    owned_repo repo_id owner_id
    call from_port (d.update_collaborator (new_collaborator 0 repo_id target_user_id permission))

  unfoldable pub remove_collaborator : ℕ → ℕ → ℕ → Service W GitError (Unit {0})
  remove_collaborator repo_id owner_id target_user_id = do
    owned_repo repo_id owner_id
    call from_port (d.remove_collaborator repo_id target_user_id)
