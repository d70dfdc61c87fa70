-- ===== src/Git/Model.antt =====
-- internal/model/git.go: repositories, collaborators, locks and permissions, with the errors of
-- internal/domain/git/errors.go that the modelled operations return.
use uniedit_server.Common.{
  ◌≡◌, ◌↔◌, ℕ, ℤ, String, Bool, true, false, Option, List, Eq, str_eq, eq_iff, arith,
}

-- `other s` is a string that is none of the constants; so for a visibility.
pub data GitPermission : Type 0 where
  read write admin : GitPermission
  other : String → GitPermission

abbrev permission_eq : GitPermission → GitPermission → Bool
permission_eq read read = true
permission_eq write write = true
permission_eq admin admin = true
permission_eq (other s) (other t) = str_eq s t
permission_eq _ _ = false

pub permission_eq_iff : (p q : GitPermission) → (permission_eq p q ≡ true) ↔ (p ≡ q)
permission_eq_iff (other s) (other t) = ground (arith, eq_iff s t)
permission_eq_iff p q = ground arith

instance abbrev pub GitPermission_Eq : Eq GitPermission
GitPermission_Eq = record { is_eq = permission_eq; is_eq_iff = permission_eq_iff }

pub data GitVisibility : Type 0 where
  public private : GitVisibility
  other_visibility : String → GitVisibility

pub record GitRepoCollaborator : Type 0 where
  pub repo_id : ℕ
  pub user_id : ℕ
  pub permission : GitPermission
  pub created_at : ℕ

pub record GitRepo : Type 0 where
  pub id : ℕ
  pub owner_id : ℕ
  pub name : String
  pub slug : String
  pub repo_type : String
  pub visibility : GitVisibility
  pub description : String
  pub default_branch : String
  pub size_bytes : ℤ
  pub lfs_enabled : Bool
  pub lfs_size_bytes : ℤ
  pub storage_path : String
  pub stars_count : ℤ
  pub forks_count : ℤ
  pub forked_from : Option ℕ
  pub created_at : ℕ
  pub updated_at : ℕ
  pub pushed_at : Option ℕ
  pub collaborators : List GitRepoCollaborator

unfoldable pub is_public : GitRepo → Bool
is_public r = elim r.visibility [ public ↦ true | _ ↦ false ]

pub data GitPrStatus : Type 0 where
  pr_open pr_merged pr_closed : GitPrStatus
  other_status : String → GitPrStatus

pub record GitPullRequest : Type 0 where
  pub id : ℕ
  pub repo_id : ℕ
  pub number : ℤ
  pub title : String
  pub description : String
  pub source_branch : String
  pub target_branch : String
  pub status : GitPrStatus
  pub author_id : ℕ
  pub merged_by : Option ℕ
  pub merged_at : Option ℕ
  pub closed_at : Option ℕ
  pub created_at : ℕ
  pub updated_at : ℕ

abbrev pub is_open : GitPrStatus → Bool
is_open pr_open = true
is_open _ = false

abbrev pub is_merged : GitPrStatus → Bool
is_merged pr_merged = true
is_merged _ = false

-- `== GitPRStatusClosed`.
abbrev pub is_closed : GitPrStatus → Bool
is_closed pr_closed = true
is_closed _ = false

pub record GitLfsObject : Type 0 where
  pub oid : String
  pub size : ℤ
  pub storage_key : String
  pub content_type : String
  pub created_at : ℕ

pub record GitPresignedUrl : Type 0 where
  pub url : String
  pub method : String
  pub expires_at : ℕ

pub record GitLfsLock : Type 0 where
  pub id : ℕ
  pub repo_id : ℕ
  pub path : String
  pub owner_id : ℕ
  pub locked_at : ℕ

pub record GitAccessResult : Type 0 where
  pub allowed : Bool
  pub permission : GitPermission
  pub reason : String

pub record GitVerifyLocksResult : Type 0 where
  pub ours : List GitLfsLock
  pub theirs : List GitLfsLock
  pub next_cursor : String

pub data GitError : Type 0 where
  repo_not_found access_denied lfs_not_enabled : GitError
  repo_already_exists invalid_repo_name storage_quota_exceeded not_owner : GitError
  invalid_permission lfs_object_not_found size_mismatch : GitError
  lock_not_found lock_already_exists lock_not_owned : GitError
  pr_not_found pr_already_merged pr_already_closed same_branch : GitError
  from_port : String → GitError
