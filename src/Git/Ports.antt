-- ===== src/Git/Ports.antt =====
-- internal/port/outbound/git.go: what the modelled operations ask of the world `W`.
use uniedit_server.Common.{ℕ, ℤ, String, Option, List, Bool, Port}
use uniedit_server.Git.Model.{
  GitRepo, GitRepoCollaborator, GitPullRequest, GitLfsObject, GitPresignedUrl, GitLfsLock,
  GitPermission, GitAccessResult,
}

pub record Ports (W : Type 0) : Type 0 where
  pub find_repo : ℕ → Port W (Option GitRepo)
  pub find_by_repo_and_user : ℕ → ℕ → Port W (Option GitRepoCollaborator)
  pub check_access : ℕ → ℕ → GitPermission → Port W GitAccessResult
  pub create_lock : GitLfsLock → Port W (Unit {0})
  pub find_lock : ℕ → Port W (Option GitLfsLock)
  pub find_by_path : ℕ → String → Port W (Option GitLfsLock)
  pub find_by_repo : ℕ → String → ℤ → Port W (List GitLfsLock)
  pub delete : ℕ → Port W (Unit {0})
  pub find_repo_by_slug : ℕ → String → Port W (Option GitRepo)
  pub create_repo : GitRepo → Port W (Unit {0})
  pub update_repo : GitRepo → Port W (Unit {0})
  pub delete_repo : ℕ → Port W (Unit {0})
  pub add_collaborator : GitRepoCollaborator → Port W (Unit {0})
  pub update_collaborator : GitRepoCollaborator → Port W (Unit {0})
  pub remove_collaborator : ℕ → ℕ → Port W (Unit {0})
  pub get_next_number : ℕ → Port W ℤ
  pub create_pr : GitPullRequest → Port W (Unit {0})
  pub find_pr : ℕ → ℤ → Port W (Option GitPullRequest)
  pub update_pr : GitPullRequest → Port W (Unit {0})
  pub get_filesystem : String → Port W ℕ
  pub delete_repository : String → Port W (Unit {0})
  pub create_object : GitLfsObject → Port W (Unit {0})
  pub find_object : String → Port W (Option GitLfsObject)
  pub link_object : ℕ → String → Port W (Unit {0})
  pub exists : String → Port W Bool
  pub generate_upload_url : String → ℤ → ℤ → Port W GitPresignedUrl
  pub generate_download_url : String → ℤ → Port W GitPresignedUrl
  pub get_user_total_storage : ℕ → Port W ℤ
  pub find_by_owner : ℕ → Port W (List GitRepo)
  pub update_pushed_at : ℕ → ℕ → Port W (Unit {0})
  pub update_size : ℕ → ℤ → ℤ → Port W (Unit {0})
  -- The content is a stream, as a handle.
  pub upload : String → ℕ → ℤ → Port W (Unit {0})

-- A filesystem and its files are handles; a file is created, written and closed.
pub record Filesystem (W : Type 0) : Type 0 where
  pub create_file : ℕ → String → Port W ℕ
  pub write_file : ℕ → String → Port W (Unit {0})
  pub close_file : ℕ → Port W (Unit {0})
  pub mkdir_all : ℕ → String → Port W (Unit {0})

-- `GitStorageQuotaChecker` of internal/port/inbound/git.go.
pub record QuotaChecker (W : Type 0) : Type 0 where
  pub get_storage_quota : ℕ → Port W ℤ
  pub get_storage_used : ℕ → Port W ℤ
