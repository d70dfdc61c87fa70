-- ===== src/Git/Examples.antt =====
-- Access and locks, over one repository, one collaborator and a table of locks in memory.
use uniedit_server.Common.{
  err, ==_refl, ◌&&◌, ◌==◌, String_Eq, ℕ_Eq, String, ℕ, Option, if◌then◌else◌, arith, ◌≡◌, ◌≢◌,
  refl, pos, Bool, true, false, [], ◌∷◌, none, some, ok, returns,
}
use uniedit_server.Git.Model.{
  GitPermission, write, admin, GitPermission_Eq, private, GitRepo, GitLfsLock, GitAccessResult,
}
use uniedit_server.Git.Ports.{Ports}
use uniedit_server.Git.Locks.{create_lock}
use uniedit_server.Git.Exclusion.{LockTable, Request, create_for, run, create_lock_excluded}

abbrev repo : GitRepo
repo = record {
  id = 9;
  owner_id = 5;
  name = "editor";
  slug = "editor";
  repo_type = "code";
  visibility = private;
  description = "";
  default_branch = "main";
  size_bytes = pos 0;
  lfs_enabled = true;
  lfs_size_bytes = pos 0;
  storage_path = "r/9";
  stars_count = pos 0;
  forks_count = pos 0;
  forked_from = none;
  created_at = 1;
  updated_at = 1;
  pushed_at = none;
  collaborators = [];
}

-- Everybody may write and nobody is an admin.
abbrev answer : GitPermission → GitAccessResult
answer p = record { allowed = not_admin p; permission = write; reason = "" }
  where
    not_admin : GitPermission → Bool
    not_admin admin = false
    not_admin _ = true

-- What is locked.
abbrev Locks : Type 0
Locks = ℕ → String → Option GitLfsLock

-- With the lock, unless its path is locked: a row that is there stays.
abbrev inserted : GitLfsLock → Locks → Locks
inserted l w r p = elim (w r p) [
  | some old ↦ some old
  | none ↦ if r == l.repo_id && p == l.path then some l else none
]

abbrev memory : Ports Locks
memory = record {
  find_repo = λ id w. (ok (some repo), w);
  find_by_repo_and_user = λ id user w.
      (ok (some (record { repo_id = 9; user_id = user; permission = write; created_at = 1 })), w);
  check_access = λ user id p w. (ok (answer p), w);
  create_lock = λ l w. elim (w l.repo_id l.path) [
    | some x ↦ (err "duplicate key", w)
    | none ↦ (ok tt, inserted l w)
  ];
  find_lock = λ id w. (ok none, w);
  find_by_path = λ id path w. (ok (w id path), w);
  find_by_repo = λ id path limit w. (ok [], w);
  delete = λ id w. (ok tt, w);
  find_repo_by_slug = λ id slug w. (ok none, w);
  create_repo = λ r w. (ok tt, w);
  update_repo = λ r w. (ok tt, w);
  delete_repo = λ id w. (ok tt, w);
  add_collaborator = λ c w. (ok tt, w);
  update_collaborator = λ c w. (ok tt, w);
  remove_collaborator = λ id user w. (ok tt, w);
  get_next_number = λ id w. (ok (pos 1), w);
  create_pr = λ pr w. (ok tt, w);
  find_pr = λ id n w. (ok none, w);
  update_pr = λ pr w. (ok tt, w);
  get_filesystem = λ path w. (ok 1, w);
  delete_repository = λ path w. (ok tt, w);
  create_object = λ o w. (ok tt, w);
  find_object = λ oid w. (ok none, w);
  link_object = λ id oid w. (ok tt, w);
  exists = λ oid w. (ok false, w);
  generate_upload_url =
      λ oid size expiry w. (ok (record { url = oid; method = "PUT"; expires_at = 9 }), w);
  generate_download_url =
      λ oid expiry w. (ok (record { url = oid; method = "GET"; expires_at = 9 }), w);
  get_user_total_storage = λ id w. (ok (pos 0), w);
  find_by_owner = λ id w. (ok (repo ∷ []), w);
  update_pushed_at = λ id now w. (ok tt, w);
  update_size = λ id size lfs w. (ok tt, w);
  upload = λ oid content size w. (ok tt, w);
}

inserted_kept :
    (l x : GitLfsLock) (r : ℕ) (p : String) (w : Locks)
    → w r p ≡ some x
    → (memory.create_lock l w).1 r p ≡ some x
inserted_kept l x r p w h = ground (arith, h)

inserted_there :
    (l : GitLfsLock) (w w' : Locks)
    → memory.create_lock l w ≡ (ok tt, w')
    → w' l.repo_id l.path ≡ some l
inserted_there l w w' h = ground (arith, h, ==_refl l.repo_id, ==_refl l.path)

memory-LockTable : LockTable memory (λ w. w)
memory-LockTable = record {
  created = inserted_there;
  create_keeps = inserted_kept;
  path_row = λ r p w. refl;
  path_keeps = λ r p w. refl;
  repo_keeps = λ r w. refl;
  access_keeps = λ user r w. refl;
}

abbrev by : ℕ → String → Request
by user path = record { new_id = user; now = 110; repo_id = 9; user_id = user; path = path }

abbrev lock : GitLfsLock
lock = record { id = 5; repo_id = 9; path = "art.psd"; owner_id = 5; locked_at = 110 }

create_lock_excluded_example :
    let later = run memory (by 6 "art.psd" ∷ by 7 "icon.psd" ∷ []) (inserted lock (λ r p. none)) in
    (later 9 "art.psd" ≡ some lock) × ((create_for memory (by 8 "art.psd") later).0 ≢ returns lock)
unfolding create_lock
create_lock_excluded_example =
    create_lock_excluded memory memory-LockTable (by 5 "art.psd") (by 8 "art.psd")
      (by 6 "art.psd" ∷ by 7 "icon.psd" ∷ []) lock lock (λ r p. none) _ refl refl refl
