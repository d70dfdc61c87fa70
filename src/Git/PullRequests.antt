-- ===== src/Git/PullRequests.antt =====
-- internal/domain/git/domain.go: pull requests. The new id and `time.Now()` are arguments.
use uniedit_server.Common.{
  ℕ, ℕ_Eq, ℤ, not, ◌&&◌, ◌==◌, if◌then◌else◌, String, String_Eq, none, some, ◌>>=◌, ◌>>◌, Service,
  give, require, call, found,
}
use uniedit_server.Git.Model.{
  read, write, GitPullRequest, pr_open, pr_merged, pr_closed, is_open, is_merged, is_closed,
  GitError, pr_not_found, pr_already_merged, pr_already_closed, same_branch, from_port,
}
use uniedit_server.Git.Ports.{Ports}
use uniedit_server.Git.Access.{check_access}

pub record GitCreatePrInput : Type 0 where
  pub title : String
  pub description : String
  pub source_branch : String
  pub target_branch : String

pub record GitUpdatePrInput : Type 0 where
  pub title : String
  pub description : String
  pub status : String

abbrev pub new_pr : ℕ → ℕ → ℕ → ℤ → GitCreatePrInput → GitPullRequest
new_pr new_id repo_id author_id number input = record {
  id = new_id;
  repo_id = repo_id;
  number = number;
  title = input.title;
  description = input.description;
  source_branch = input.source_branch;
  target_branch = input.target_branch;
  status = pr_open;
  author_id = author_id;
  merged_by = none;
  merged_at = none;
  closed_at = none;
  created_at = 0;
  updated_at = 0;
}

-- The change of the status in `UpdatePR`; the empty text changes nothing either.
unfoldable pub updated_status : ℕ → String → GitPullRequest → GitPullRequest
updated_status now s pr =
    if s == "closed" && is_open pr.status
    then record pr { status = pr_closed; closed_at = some now }
    else if s == "open" && is_closed pr.status
    then record pr { status = pr_open; closed_at = none }
    else pr

unfoldable pub updated_pr : ℕ → GitUpdatePrInput → GitPullRequest → GitPullRequest
updated_pr now input pr = updated_status now input.status (record pr {
  title = if input.title == "" then pr.title else input.title;
  description = if input.description == "" then pr.description else input.description;
})

unfoldable pub merged_pr : ℕ → ℕ → GitPullRequest → GitPullRequest
merged_pr now user_id pr = record pr {
  status = pr_merged;
  merged_by = some user_id;
  merged_at = some now;
}

module _ {W : Type 0} (d : Ports W) where
  unfoldable pub create_pr : ℕ → ℕ → ℕ → GitCreatePrInput → Service W GitError GitPullRequest
  create_pr new_id repo_id author_id input = do
    check_access d repo_id author_id read
    require (not (input.source_branch == input.target_branch)) same_branch
    number ← call from_port (d.get_next_number repo_id)
    call from_port (d.create_pr (new_pr new_id repo_id author_id number input))
    give (new_pr new_id repo_id author_id number input)

  unfoldable pub get_pr : ℕ → ℤ → Service W GitError GitPullRequest
  get_pr repo_id number = do pr ← call from_port (d.find_pr repo_id number); found pr pr_not_found

  unfoldable pub update_pr : ℕ → ℕ → ℤ → ℕ → GitUpdatePrInput → Service W GitError GitPullRequest
  update_pr now repo_id number user_id input = do
    pr ← found (← call from_port (d.find_pr repo_id number)) pr_not_found
    if pr.author_id == user_id then give tt else check_access d repo_id user_id write
    require (not (is_merged pr.status)) pr_already_merged
    call from_port (d.update_pr (updated_pr now input pr))
    give (updated_pr now input pr)

  unfoldable pub merge_pr : ℕ → ℕ → ℤ → ℕ → Service W GitError GitPullRequest
  merge_pr now repo_id number user_id = do
    check_access d repo_id user_id write
    pr ← found (← call from_port (d.find_pr repo_id number)) pr_not_found
    require (not (is_merged pr.status)) pr_already_merged
    require (not (is_closed pr.status)) pr_already_closed
    call from_port (d.update_pr (merged_pr now user_id pr))
    give (merged_pr now user_id pr)
