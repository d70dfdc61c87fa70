-- ===== src/Git/PullExamples.antt =====
-- Pull requests, over a table of pull requests in memory.
use uniedit_server.Common.{
  ◌≡◌, ◌≢◌, ◌⊎◌, inl, inr, refl, ℕ, ℕ_Eq, ℤ, ℤ_Eq, pos, true, false, Bool-cases, if◌then◌else◌,
  ◌==◌, ◌&&◌, String_Eq, List, [], ◌∷◌, Option, none, some, ok, err, fails_with, arith,
}
use uniedit_server.Git.Model.{GitPullRequest, private, GitRepo, write, admin, not_owner, pr_merged}
use uniedit_server.Git.Ports.{Ports}
use uniedit_server.Git.PullRequests.{GitUpdatePrInput, new_pr}
use uniedit_server.Git.Collaborators.{add_collaborator, update_collaborator, remove_collaborator}
use uniedit_server.Git.Repos.{delete_repo}
use uniedit_server.Git.Creation.{not_owner_refused}
use uniedit_server.Git.Table.{Pulls, PrTable}
use uniedit_server.Git.Calls.{Call, call_update_pr, call_merge_pr, run}
use uniedit_server.Git.Merging.{Stamps, run-Merged, run-Stamps}

-- All rows of pull requests.
abbrev pub Rows : Type 0
Rows = ℕ → ℤ → Option GitPullRequest

abbrev stored : GitPullRequest → Rows → Rows
stored pr w r n = if r == pr.repo_id && n == pr.number then some pr else w r n

-- A row that is there stays.
abbrev inserted : GitPullRequest → Rows → Rows
inserted pr w r n = elim (w r n) [ some old ↦ some old | none ↦ stored pr w r n ]

abbrev in_place : ℕ → ℤ → Option GitPullRequest → Option GitPullRequest
in_place r n none = none
in_place r n (some pr) = if pr.repo_id == r && pr.number == n then some pr else none

abbrev pub editor : GitRepo
editor = record {
  id = 9;
  owner_id = 5;
  name = "editor";
  slug = "editor";
  repo_type = "code";
  visibility = private;
  description = "";
  default_branch = "main";
  size_bytes = pos 0;
  lfs_enabled = true;
  lfs_size_bytes = pos 0;
  storage_path = "r/9";
  stars_count = pos 0;
  forks_count = pos 0;
  forked_from = none;
  created_at = 1;
  updated_at = 1;
  pushed_at = none;
  collaborators = [];
}

abbrev pub rows : Ports Rows
rows = record {
  find_repo = λ id w. (ok (some editor), w);
  find_by_repo_and_user = λ id user w. (ok none, w);
  check_access =
      λ user id p w. (ok (record { allowed = true; permission = write; reason = "" }), w);
  create_lock = λ l w. (ok tt, w);
  find_lock = λ id w. (ok none, w);
  find_by_path = λ id path w. (ok none, w);
  find_by_repo = λ id path limit w. (ok [], w);
  delete = λ id w. (ok tt, w);
  find_repo_by_slug = λ id slug w. (err "no connection", w);
  create_repo = λ r w. (ok tt, w);
  update_repo = λ r w. (ok tt, w);
  delete_repo = λ id w. (ok tt, w);
  add_collaborator = λ c w. (ok tt, w);
  update_collaborator = λ c w. (ok tt, w);
  remove_collaborator = λ id user w. (ok tt, w);
  get_next_number = λ id w. (ok (pos 1), w);
  create_pr = λ pr w. (ok tt, inserted pr w);
  find_pr = λ r n w. (ok (in_place r n (w r n)), w);
  update_pr = λ pr w. (ok tt, stored pr w);
  get_filesystem = λ path w. (ok 1, w);
  delete_repository = λ path w. (ok tt, w);
  create_object = λ o w. (ok tt, w);
  find_object = λ oid w. (ok none, w);
  link_object = λ id oid w. (ok tt, w);
  exists = λ oid w. (ok false, w);
  generate_upload_url =
      λ oid size expiry w. (ok (record { url = oid; method = "PUT"; expires_at = 9 }), w);
  generate_download_url =
      λ oid expiry w. (ok (record { url = oid; method = "GET"; expires_at = 9 }), w);
  get_user_total_storage = λ id w. (ok (pos 0), w);
  find_by_owner = λ id w. (ok (editor ∷ []), w);
  update_pushed_at = λ id now w. (ok tt, w);
  update_size = λ id size lfs w. (ok tt, w);
  upload = λ oid content size w. (ok tt, w);
}

abbrev view : Pulls Rows
view w = w

stored_cases :
    (pr : GitPullRequest) (w : Rows) (r : ℕ) (n : ℤ)
    → (stored pr w r n ≡ w r n) ⊎ ((r ≡ pr.repo_id) × (n ≡ pr.number) × (stored pr w r n ≡ some pr))
stored_cases pr w r n = elim (Bool-cases (r == pr.repo_id)) [
  | inr e ↦ inl (ground arith)
  | inl e ↦ elim (Bool-cases (n == pr.number)) [
    | inr f ↦ inl (rw (e, f) refl)
    | inl f ↦ inr (ground arith, (ℤ_Eq.is_eq_iff n pr.number).0 f, rw (e, f) refl)
  ]
]

in_place_found :
    (r : ℕ) (n : ℤ) (pr : GitPullRequest) (o : Option GitPullRequest)
    → in_place r n o ≡ some pr
    → (o ≡ some pr) × (pr.repo_id ≡ r) × (pr.number ≡ n)
in_place_found r n pr none h = absurd (ground arith)
in_place_found r n pr (some p) h = (
  ground (arith, ℤ_Eq.is_eq_iff p.number n),
  ground (arith, ℤ_Eq.is_eq_iff p.number n),
  ground (arith, ℤ_Eq.is_eq_iff p.number n),
)

inserted_kept :
    (pr : GitPullRequest) (w : Rows) (r : ℕ) (n : ℤ) → w r n ≢ none → inserted pr w r n ≡ w r n
inserted_kept pr w r n h = ground (arith, h)

rows-PrTable : PrTable rows view
rows-PrTable = record {
  update_pr = stored_cases;
  create_pr = inserted_kept;
  pr_found = λ r n pr w h. in_place_found r n pr (w r n) (ground arith);
  reads_pr = λ r n. record { keeps = λ w r n. refl };
  reads_repo = λ r. record { keeps = λ w r n. refl };
  reads_collaborator = λ r u. record { keeps = λ w r n. refl };
  reads_number = λ r. record { keeps = λ w r n. refl };
}

-- The first pull request of the repository, opened by user 6.
abbrev first_pr : GitPullRequest
first_pr =
    new_pr 40 9 6 (pos 1)
      (record { title = "fix"; description = ""; source_branch = "fix"; target_branch = "main" })

abbrev close_it : GitUpdatePrInput
close_it = record { title = ""; description = ""; status = "closed" }

abbrev reopen_it : GitUpdatePrInput
reopen_it = record { title = "fix it"; description = ""; status = "open" }

-- It is closed and opened again by its author, and merged by the owner.
abbrev calls : List Call
calls =
    call_update_pr 100 9 (pos 1) 6 close_it
    ∷ call_update_pr 101 9 (pos 1) 6 reopen_it
    ∷ call_merge_pr 102 9 (pos 1) 5
    ∷ []

run-Stamps_example :
    (pr : GitPullRequest) × (run rows calls (stored first_pr (λ r n. none)) 9 (pos 1) ≡ some pr)
    × Stamps pr
run-Stamps_example =
    run-Stamps rows-PrTable 9 (pos 1) first_pr calls (stored first_pr (λ r n. none))
      (inl (refl, refl, refl, refl)) refl

abbrev merged_one : GitPullRequest
merged_one = record first_pr { status = pr_merged; merged_by = some 5; merged_at = some 99 }

run-Merged_example : run rows calls (stored merged_one (λ r n. none)) 9 (pos 1) ≡ some merged_one
run-Merged_example =
    run-Merged rows-PrTable 9 (pos 1) merged_one calls (stored merged_one (λ r n. none)) refl refl

not_owner_refused_example :
    (delete_repo rows 9 6 (λ r n. none) ≡ (fails_with not_owner, λ r n. none))
    × (add_collaborator rows 100 9 6 7 admin (λ r n. none) ≡ (fails_with not_owner, λ r n. none))
    × (update_collaborator rows 9 6 7 admin (λ r n. none) ≡ (fails_with not_owner, λ r n. none))
    × (remove_collaborator rows 9 6 7 (λ r n. none) ≡ (fails_with not_owner, λ r n. none))
not_owner_refused_example =
    not_owner_refused rows 100 9 6 7 admin editor (λ r n. none) (λ r n. none) refl
      (λ e. omega arith)
