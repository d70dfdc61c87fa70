-- ===== src/Git/Repos.antt =====
-- internal/domain/git/domain.go: the operations on repositories, with internal/domain/git/config.go. The
-- new id, the storage path that is formatted from it, and `strings.ToLower` are arguments.
use uniedit_server.Common.{
  ℕ, ℕ_Eq, ℤ, pos, negsuc, le_ℤ, lt_ℤ, sub64, Bool, true, false, not, ◌==◌, if◌then◌else◌, String,
  String_Eq, [], Option, none, some, Result, ok, err, Reply, returns, fails_with, panics, Service,
  ◌>>=◌, ◌>>◌, give, raise, require, try, call, found, length, Reply, returns, fails_with,
}
use uniedit_server.Git.Model.{
  admin, GitRepo, GitVisibility, private, other_visibility, GitError, repo_not_found,
  repo_already_exists, invalid_repo_name, storage_quota_exceeded, not_owner, from_port,
}
use uniedit_server.Git.Ports.{Ports, Filesystem, QuotaChecker}
use uniedit_server.Git.Storage.{init_bare_repo}
use uniedit_server.Git.Slugs.{generate_slug, slug_matches}
use uniedit_server.Git.Access.{check_access}

pub record Config : Type 0 where
  pub repo_prefix : String
  pub lfs_prefix : String
  pub max_lfs_file_size : ℤ
  pub presigned_url_expiry : ℤ
  pub default_branch : String
  pub base_url : String

pub record GitCreateRepoInput : Type 0 where
  pub name : String
  pub repo_type : String
  pub visibility : GitVisibility
  pub description : String
  pub lfs_enabled : Bool

pub record GitUpdateRepoInput : Type 0 where
  pub name : String
  pub description : String
  pub visibility : GitVisibility
  pub default_branch : String
  pub lfs_enabled : Option Bool

pub record GitUserStorageStats : Type 0 where
  pub total_used_bytes : ℤ
  pub quota_bytes : ℤ
  pub remaining_bytes : ℤ
  pub repo_count : ℕ

-- The text, or a default for the empty one; so for a visibility.
abbrev pub text_or : String → String → String
text_or d s = if s == "" then d else s

abbrev pub visibility_or : GitVisibility → GitVisibility → GitVisibility
visibility_or d (other_visibility s) = if s == "" then d else other_visibility s
visibility_or d v = v

abbrev pub new_repo : Config → ℕ → ℕ → String → String → GitCreateRepoInput → GitRepo
new_repo cfg new_id owner_id slug storage_path input = record {
  id = new_id;
  owner_id = owner_id;
  name = input.name;
  slug = slug;
  repo_type = text_or "code" input.repo_type;
  visibility = visibility_or private input.visibility;
  description = input.description;
  default_branch = cfg.default_branch;
  size_bytes = pos 0;
  lfs_enabled = input.lfs_enabled;
  lfs_size_bytes = pos 0;
  storage_path = storage_path;
  stars_count = pos 0;
  forks_count = pos 0;
  forked_from = none;
  created_at = 0;
  updated_at = 0;
  pushed_at = none;
  collaborators = [];
}

-- The fields of `UpdateRepo`, after the name.
abbrev pub updated_fields : GitUpdateRepoInput → GitRepo → GitRepo
updated_fields input r = record r {
  description = text_or r.description input.description;
  visibility = visibility_or r.visibility input.visibility;
  default_branch = text_or r.default_branch input.default_branch;
  lfs_enabled = elim input.lfs_enabled [ none ↦ r.lfs_enabled | some b ↦ b ];
}

-- What is left of a quota; -1 where there is none.
unfoldable pub remaining : ℤ → ℤ → ℤ
remaining quota used =
    if lt_ℤ (pos 0) quota
    then if lt_ℤ (sub64 quota used) (pos 0) then pos 0 else sub64 quota used
    else negsuc 0

-- `err == nil`.
abbrev pub answered : {A : Type 0} → Result String A → Bool
answered (ok a) = true
answered (err m) = false

-- `used >= quota`; an error only gets logged.
abbrev pub exceeds : Result String ℤ → ℤ → Bool
exceeds (ok used) quota = le_ℤ quota used
exceeds (err m) quota = false

module _ {W : Type 0} where
  abbrev check_used : QuotaChecker W → ℕ → Result String ℤ → Service W GitError (Unit {0})
  check_used q owner_id (err m) = give tt
  check_used q owner_id (ok quota) =
      if lt_ℤ (pos 0) quota
      then (do
        used ← try (q.get_storage_used owner_id)
        require (not (exceeds used quota)) storage_quota_exceeded)
      else give tt

  unfoldable pub check_quota : Option (QuotaChecker W) → ℕ → Service W GitError (Unit {0})
  check_quota none owner_id = give tt
  check_quota (some q) owner_id = do
    quota ← try (q.get_storage_quota owner_id)
    check_used q owner_id quota

-- Every error is `ErrNotOwner`.
abbrev pub as_not_owner : {W A : Type 0} → Reply GitError A × W → Reply GitError A × W
as_not_owner (returns a, w) = (returns a, w)
as_not_owner (fails_with e, w) = (fails_with not_owner, w)
as_not_owner (panics, w) = (panics, w)

module _ {W : Type 0} (d : Ports W) where
  -- The last write; where it fails, the storage is removed again.
  unfoldable pub store_repo : GitRepo → Service W GitError GitRepo
  store_repo repo = do
    stored ← try (d.create_repo repo)
    elim stored [
      | err m ↦ (do ignored ← try (d.delete_repository repo.storage_path); raise (from_port m))
      | ok x ↦ give repo
    ]

  -- The check of a new name of a repository against the other ones of its owner.
  abbrev pub check_slug : GitRepo → String → Service W GitError (Unit {0})
  check_slug repo slug = if slug == repo.slug then give tt else (do
    existing ← try (d.find_repo_by_slug repo.owner_id slug)
    require (not (answered existing)) repo_already_exists)

  unfoldable pub renamed : (String → String) → String → GitRepo → Service W GitError GitRepo
  renamed to_lower name repo = if name == "" then give repo else (do
    require (slug_matches (generate_slug to_lower name)) invalid_repo_name
    check_slug repo (generate_slug to_lower name)
    give (record repo { name = name; slug = generate_slug to_lower name }))

  -- An admin may change a repository that another user owns.
  abbrev pub check_admin : ℕ → ℕ → Service W GitError (Unit {0})
  check_admin id user_id w = as_not_owner (check_access d id user_id admin w)

  unfoldable pub update_repo :
      (String → String) → ℕ → ℕ → GitUpdateRepoInput → Service W GitError GitRepo
  update_repo to_lower id user_id input = do
    repo ← found (← call from_port (d.find_repo id)) repo_not_found
    if repo.owner_id == user_id then give tt else check_admin id user_id
    repo' ← renamed to_lower input.name repo
    call from_port (d.update_repo (updated_fields input repo'))
    give (updated_fields input repo')

  unfoldable pub get_repo : ℕ → Service W GitError GitRepo
  get_repo id = do repo ← call from_port (d.find_repo id); found repo repo_not_found

  unfoldable pub get_repo_by_owner_and_slug : ℕ → String → Service W GitError GitRepo
  get_repo_by_owner_and_slug owner_id slug = do
    repo ← call from_port (d.find_repo_by_slug owner_id slug)
    found repo repo_not_found

  unfoldable pub update_pushed_at : ℕ → ℕ → Service W GitError (Unit {0})
  update_pushed_at now repo_id = call from_port (d.update_pushed_at repo_id now)

  unfoldable pub update_repo_size : ℕ → ℤ → ℤ → Service W GitError (Unit {0})
  update_repo_size repo_id size lfs_size = call from_port (d.update_size repo_id size lfs_size)

  -- An error of the storage only gets logged.
  unfoldable pub delete_repo : ℕ → ℕ → Service W GitError (Unit {0})
  delete_repo id user_id = do
    repo ← found (← call from_port (d.find_repo id)) repo_not_found
    require (repo.owner_id == user_id) not_owner
    ignored ← try (d.delete_repository repo.storage_path)
    call from_port (d.delete_repo id)

  -- The quota of a user, -1 where no checker tells it.
  abbrev pub quota_of : Option (QuotaChecker W) → ℕ → Service W GitError ℤ
  quota_of none user_id = give (negsuc 0)
  quota_of (some q) user_id = do
    quota ← try (q.get_storage_quota user_id)
    give (elim quota [ ok n ↦ n | err m ↦ negsuc 0 ])

  unfoldable pub get_user_storage_stats :
      Option (QuotaChecker W) → ℕ → Service W GitError GitUserStorageStats
  get_user_storage_stats q user_id = do
    used ← call from_port (d.get_user_total_storage user_id)
    repos ← call from_port (d.find_by_owner user_id)
    quota ← quota_of q user_id
    give (record {
      total_used_bytes = used;
      quota_bytes = quota;
      remaining_bytes = remaining quota used;
      repo_count = length repos;
    })

module _ {W : Type 0} (d : Ports W) (fs : Filesystem W) (q : Option (QuotaChecker W))
    (cfg : Config) where
  unfoldable pub create_repo :
      (String → String) → ℕ → String → ℕ → GitCreateRepoInput → Service W GitError GitRepo
  create_repo to_lower new_id storage_path owner_id input = do
    require (slug_matches (generate_slug to_lower input.name)) invalid_repo_name
    existing ← try (d.find_repo_by_slug owner_id (generate_slug to_lower input.name))
    require (not (answered existing)) repo_already_exists
    check_quota q owner_id
    let repo = new_repo cfg new_id owner_id (generate_slug to_lower input.name) storage_path input
    init_bare_repo d fs repo
    store_repo d repo
