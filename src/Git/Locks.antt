-- ===== src/Git/Locks.antt =====
-- internal/domain/git/lfs_lock_domain.go: the locks of files. The id of a lock and `time.Now()` are
-- arguments, and calls of the logger are left out.
use uniedit_server.Common.{
  ℕ, ℕ_Eq, pos, Bool, true, false, not, ◌&&◌, ◌==◌, if◌then◌else◌, String, List, [], ◌∷◌, ◌++◌,
  Option, some, Result, ok, Service, ◌>>=◌, ◌>>◌, give, require, try, call, found,
}
use uniedit_server.Git.Model.{
  write, admin, GitLfsLock, GitVerifyLocksResult, GitError, repo_not_found, access_denied,
  lfs_not_enabled, lock_not_found, lock_already_exists, lock_not_owned, from_port,
}
use uniedit_server.Git.Ports.{Ports}

-- `err == nil && existing != nil`.
abbrev pub is_locked : Result String (Option GitLfsLock) → Bool
is_locked (ok (some lock)) = true
is_locked _ = false

abbrev pub new_lock : ℕ → ℕ → ℕ → ℕ → String → GitLfsLock
new_lock new_id now repo_id user_id path = record {
  id = new_id;
  repo_id = repo_id;
  path = path;
  owner_id = user_id;
  locked_at = now;
}

-- The loop of `VerifyLocks`.
unfoldable pub sort_locks : ℕ → List GitLfsLock → GitVerifyLocksResult → GitVerifyLocksResult
sort_locks user_id [] r = r
sort_locks user_id (l ∷ locks) r = sort_locks user_id locks (
    if l.owner_id == user_id
    then record r { ours = r.ours ++ l ∷ [] }
    else record r { theirs = r.theirs ++ l ∷ [] })

module _ {W : Type 0} (d : Ports W) where
  unfoldable pub create_lock : ℕ → ℕ → ℕ → ℕ → String → Service W GitError GitLfsLock
  create_lock new_id now repo_id user_id path = do
    repo ← found (← call from_port (d.find_repo repo_id)) repo_not_found
    require repo.lfs_enabled lfs_not_enabled
    result ← call from_port (d.check_access user_id repo_id write)
    require result.allowed access_denied
    existing ← try (d.find_by_path repo_id path)
    require (not (is_locked existing)) lock_already_exists
    call from_port (d.create_lock (new_lock new_id now repo_id user_id path))
    give (new_lock new_id now repo_id user_id path)

  unfoldable pub get_lock : ℕ → Service W GitError GitLfsLock
  get_lock id = do lock ← call from_port (d.find_lock id); found lock lock_not_found

  -- The check of a user who is not the owner, unless the unlock is forced.
  unfoldable pub may_unlock : GitLfsLock → ℕ → Bool → Service W GitError (Unit {0})
  may_unlock lock user_id force =
      if not force && not (lock.owner_id == user_id)
      then (do
        result ← call from_port (d.check_access user_id lock.repo_id admin)
        require result.allowed lock_not_owned)
      else give tt

  unfoldable pub delete_lock : ℕ → ℕ → Bool → Service W GitError (Unit {0})
  delete_lock id user_id force = do
    lock ← found (← call from_port (d.find_lock id)) lock_not_found
    may_unlock lock user_id force
    call from_port (d.delete id)

  unfoldable pub verify_locks : ℕ → ℕ → Service W GitError GitVerifyLocksResult
  verify_locks repo_id user_id = do
    locks ← call from_port (d.find_by_repo repo_id "" (pos 0))
    give (sort_locks user_id locks (record { ours = []; theirs = []; next_cursor = "" }))
