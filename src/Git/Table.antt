-- ===== src/Git/Table.antt =====
-- What the database promises about the rows of pull requests: which row a write changes, and that every
-- other call leaves them as they are.
use uniedit_server.Common.{◌≡◌, ◌≢◌, ◌⊎◌, ℕ, ℤ, Option, some, none, ok, Port}
use uniedit_server.Git.Model.{GitPullRequest}
use uniedit_server.Git.Ports.{Ports}

-- The pull request with a number in a repository.
abbrev pub Pulls : Type 0 → Type 0
Pulls W = W → ℕ → ℤ → Option GitPullRequest

-- A port that changes no pull request.
pub record Reads {W A : Type 0} (v : Pulls W) (p : Port W A) : Type 0 where
  pub keeps : (w : W) (r : ℕ) (n : ℤ) → v (p w).1 r n ≡ v w r n

-- A write changes at most the row of its repository and number, which is the row that is found under them;
-- and a new pull request was none before.
pub record PrTable {W : Type 0} (d : Ports W) (v : Pulls W) : Type 0 where
  pub update_pr :
      (pr : GitPullRequest) (w : W) (r : ℕ) (n : ℤ)
      → (v (d.update_pr pr w).1 r n ≡ v w r n)
        ⊎ ((r ≡ pr.repo_id) × (n ≡ pr.number) × (v (d.update_pr pr w).1 r n ≡ some pr))
  pub create_pr :
      (pr : GitPullRequest) (w : W) (r : ℕ) (n : ℤ)
      → v w r n ≢ none
      → v (d.create_pr pr w).1 r n ≡ v w r n
  pub pr_found :
      (r : ℕ) (n : ℤ) (pr : GitPullRequest) (w : W)
      → (d.find_pr r n w).0 ≡ ok (some pr)
      → (v w r n ≡ some pr) × (pr.repo_id ≡ r) × (pr.number ≡ n)
  pub reads_pr : (r : ℕ) (n : ℤ) → Reads v (d.find_pr r n)
  pub reads_repo : (r : ℕ) → Reads v (d.find_repo r)
  pub reads_collaborator : (r u : ℕ) → Reads v (d.find_by_repo_and_user r u)
  pub reads_number : (r : ℕ) → Reads v (d.get_next_number r)
