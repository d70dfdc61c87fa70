-- ===== src/Git/Exclusion.antt =====
-- One lock for each path, and who can remove it.
use uniedit_server.Common.{
  ◌>>◌, ◌≡◌, ◌≢◌, refl, pos, ℕ, ℕ_Eq, Bool, true, false, Bool-cases, inl, inr, ◌==◌, if◌then◌else◌,
  List, [], ◌∷◌, ◌++◌, append_assoc, some, ok, returns, fails_with, call, arith, Service, String,
  Option, Ensures, PortWith, Result, Safe, ensured, subst, Ensures-bind, Returned, Safe-call_then,
  SafePort, not, try, Ensures-all, Safe-bind, ap, Safe-found, found, sym, ◌∙◌, Answered-Any,
  Safe-require_then, require, Ensures-call, Safe-give, Ensures-give, give,
}
use mathlib.Core.List.{append-nil}
use uniedit_server.Git.Model.{
  GitLfsLock, GitAccessResult, GitVerifyLocksResult, admin, write, lock_not_owned, from_port,
  GitError, lock_already_exists,
}
use uniedit_server.Git.Ports.{Ports}
use uniedit_server.Git.Locks.{
  create_lock, delete_lock, may_unlock, sort_locks, verify_locks, is_locked, new_lock,
}

-- The table of locks with its unique key on repository and path, as what is locked: a lock that was created is
-- there and is not lost by creating others, a lookup by path answers the lock, and lookups leave the
-- table as it is.
pub record LockTable {W : Type 0} (d : Ports W) (v : W → ℕ → String → Option GitLfsLock)
    : Type 0 where
  pub created :
      (l : GitLfsLock) (w w' : W) → d.create_lock l w ≡ (ok tt, w') → v w' l.repo_id l.path ≡ some l
  pub create_keeps :
      (l x : GitLfsLock) (repo_id : ℕ) (path : String) (w : W)
      → v w repo_id path ≡ some x
      → v (d.create_lock l w).1 repo_id path ≡ some x
  pub path_row :
      (repo_id : ℕ) (path : String) (w : W)
      → (d.find_by_path repo_id path w).0 ≡ ok (v w repo_id path)
  pub path_keeps : (repo_id : ℕ) (path : String) (w : W) → v (d.find_by_path repo_id path w).1 ≡ v w
  pub repo_keeps : (repo_id : ℕ) (w : W) → v (d.find_repo repo_id w).1 ≡ v w
  pub access_keeps :
      (user_id repo_id : ℕ) (w : W) → v (d.check_access user_id repo_id write w).1 ≡ v w

-- A call of `CreateLock`.
pub record Request : Type 0 where
  pub new_id : ℕ
  pub now : ℕ
  pub repo_id : ℕ
  pub user_id : ℕ
  pub path : String

module _ {W : Type 0} (d : Ports W) where
  abbrev pub create_for : Request → Service W GitError GitLfsLock
  create_for q = create_lock d q.new_id q.now q.repo_id q.user_id q.path

  -- The world after the calls.
  abbrev pub run : List Request → W → W
  run [] w = w
  run (q ∷ requests) w = run requests (create_for q w).1

  abbrev wanted : Request → GitLfsLock
  wanted q = new_lock q.new_id q.now q.repo_id q.user_id q.path

  -- The end of `CreateLock`.
  abbrev after_lookup : Request → Result String (Option GitLfsLock) → Service W GitError GitLfsLock
  after_lookup q r = do
    require (not (is_locked r)) lock_already_exists
    call from_port (d.create_lock (wanted q))
    give (wanted q)

module _ {W : Type 0} (d : Ports W) {v : W → ℕ → String → Option GitLfsLock}
    (t : LockTable d v) where
  module _ (l : GitLfsLock) where
    abbrev Locked : W → Type 0
    Locked w = v w l.repo_id l.path ≡ some l

    -- Not a lock for the path of `l`.
    abbrev Elsewhere : Request → Type 0
    Elsewhere q = q.repo_id ≡ l.repo_id → q.path ≡ l.path → ⊥

    keeps :
        {S A : Type 0} (p : PortWith S W A)
        → ((w : W) → v (p w).1 ≡ v w)
        → SafePort Locked p (λ (a : A). Unit)
    keeps p f = record {
      safe = λ w i. (ap (λ u. u l.repo_id l.path) (f w) ∙ i, Answered-Any (p w).0);
    }

    -- What the lookup by path answers for the path of `l`.
    looked_up :
        (q : Request)
        → Safe {E = GitError} Locked
            (try (d.find_by_path q.repo_id q.path))
            (λ r. q.repo_id ≡ l.repo_id → q.path ≡ l.path → r ≡ ok (some l))
    looked_up q = record {
      safe = λ w i. (
        ap (λ u. u l.repo_id l.path) (t.path_keeps q.repo_id q.path w) ∙ i,
        λ a b.
            t.path_row q.repo_id q.path w
            ∙ ap ok (ap (v w q.repo_id) b ∙ ap (λ n. v w n l.path) a ∙ i),
      );
    }

    unlocked :
        (r : Result String (Option GitLfsLock)) → r ≡ ok (some l) → not (is_locked r) ≡ true → ⊥
    unlocked r e b = locked (ap (λ x. not (is_locked x)) (sym e) ∙ b)
      where
        locked : false ≡ true → ⊥
        locked h = cc

    stored : (x : GitLfsLock) → SafePort Locked (d.create_lock x) (λ (u : Unit {0}). Unit)
    stored x = record {
      safe = λ w i. (t.create_keeps x l l.repo_id l.path w i, Answered-Any (d.create_lock x w).0);
    }

    refused_there :
        (q : Request) (r : Result String (Option GitLfsLock))
        → (q.repo_id ≡ l.repo_id → q.path ≡ l.path → r ≡ ok (some l))
        → Safe Locked (after_lookup d q r) (λ x. Elsewhere q)
    refused_there q r g = Safe-require_then (not (is_locked r)) lock_already_exists (λ b.
        Safe-call_then from_port (stored (wanted d q))
          (λ u z. Safe-give (wanted d q) (λ m n. unlocked r (g m n) b)))

    create_lock-Elsewhere : (q : Request) → Safe Locked (create_for d q) (λ x. Elsewhere q)
    unfolding create_lock
    create_lock-Elsewhere q =
        Safe-call_then _ (keeps (d.find_repo q.repo_id) (t.repo_keeps q.repo_id)) (λ o z.
          Safe-bind _ _ (Safe-found o _) (λ repo y. Safe-require_then repo.lfs_enabled _ (λ x.
            Safe-call_then _
              (keeps (d.check_access q.user_id q.repo_id write)
                (t.access_keeps q.user_id q.repo_id))
              (λ access z'.
                Safe-require_then access.allowed _
                  (λ x'. Safe-bind _ (after_lookup d q) (looked_up q) (refused_there q))))))

    run-Locked : (requests : List Request) (w : W) → Locked w → Locked (run d requests w)
    run-Locked [] w h = h
    run-Locked (q ∷ requests) w h = run-Locked requests _ ((create_lock-Elsewhere q).safe w h).0

    excluded :
        (q : Request) (w : W) (x : GitLfsLock)
        → Locked w
        → q.repo_id ≡ l.repo_id
        → q.path ≡ l.path
        → (create_for d q w).0 ≢ returns x
    excluded q w x h a b e =
        subst (Returned (λ z. Elsewhere q)) e ((create_lock-Elsewhere q).safe w h).1 a b

  created-Locked : (q : Request) (w : W) → Ensures (create_for d q) w (λ l w'. Locked l w')
  unfolding create_lock
  created-Locked q w = Ensures-bind _ _ w (
      Ensures-all (call from_port (d.find_repo q.repo_id)) w (λ o w1. Ensures-bind _ _ w1 (
        Ensures-all (found o _) w1 (λ repo w2. Ensures-bind _ _ w2 (
          Ensures-all (require repo.lfs_enabled _) w2 (λ y w3. Ensures-bind _ _ w3 (
            Ensures-all (call from_port (d.check_access q.user_id q.repo_id write)) w3 (λ r w4.
              Ensures-bind _ _ w4 (
                Ensures-all (require r.allowed _) w4 (λ z w5. Ensures-bind _ (after_lookup d q) w5 (
                  Ensures-all (try (d.find_by_path q.repo_id q.path)) w5 (λ e w6.
                    Ensures-bind _ _ w6 (
                      Ensures-all (require (not (is_locked e)) lock_already_exists) w6 (λ u w7.
                        Ensures-bind _ _ w7 (
                          Ensures-call from_port (d.create_lock _) w7
                            (λ u' w8 g. Ensures-give _ w8 (t.created _ w7 w8 g)))))))))))))))))

  -- Once `CreateLock` has returned a lock, then after any calls of `CreateLock`, for any paths and by any users, that
  -- lock is still the one in the table for its path, and one more call for its path, by whichever user,
  -- does not return a lock. This is where no lock is deleted, a row that was created is there and stays, and
  -- a lookup by path succeeds and answers the row.
  pub create_lock_excluded :
      (first q : Request) (requests : List Request) (l x : GitLfsLock) (w w' : W)
      → create_for d first w ≡ (returns l, w')
      → q.repo_id ≡ l.repo_id
      → q.path ≡ l.path
      → let later = run d requests w' in
        (v later l.repo_id l.path ≡ some l) × ((create_for d q later).0 ≢ returns x)
  create_lock_excluded first q requests l x w w' e a b =
      let kept = run-Locked l requests w' (ensured _ l w w' (created-Locked first w) e) in
      (kept, excluded l q _ x kept a b)

module _ {W : Type 0} (d : Ports W) where
  -- For a lock that is found, `DeleteLock` asks for no permission when it is forced or called by the
  -- owner of the lock, and deletes it; a call by any other user deletes it only with the admin permission
  -- on the repository, and is refused with no change after the lookup of access otherwise.
  pub delete_lock_lem :
      (id user_id : ℕ) (force : Bool) (l : GitLfsLock) (r : GitAccessResult) (w w1 w2 : W)
      → d.find_lock id w ≡ (ok (some l), w1)
      → (force ≡ true → delete_lock d id user_id force w ≡ call from_port (d.delete id) w1)
        × (l.owner_id ≡ user_id
            → delete_lock d id user_id force w ≡ call from_port (d.delete id) w1)
        × (force ≡ false
            → l.owner_id ≢ user_id
            → d.check_access user_id l.repo_id admin w1 ≡ (ok r, w2)
            → delete_lock d id user_id force w ≡ (
                if r.allowed
                then call from_port (d.delete id) w2
                else (fails_with lock_not_owned, w2)))
  unfolding delete_lock may_unlock
  delete_lock_lem id user_id force l r w w1 w2 e =
      (λ f. ground arith, λ o. ground arith, λ f n c. ground arith)

-- The locks that a user owns, or that others own, in order.
abbrev pub owned : Bool → ℕ → List GitLfsLock → List GitLfsLock
owned mine user_id [] = []
owned mine user_id (l ∷ locks) =
    let rest = owned mine user_id locks in
    if l.owner_id == user_id
    then if mine then l ∷ rest else rest
    else if mine
    then rest
    else l ∷ rest

abbrev sorted : GitVerifyLocksResult → ℕ → List GitLfsLock → GitVerifyLocksResult
sorted r user_id locks = record r {
  ours = r.ours ++ owned true user_id locks;
  theirs = r.theirs ++ owned false user_id locks;
}

sort_locks-sorted :
    (user_id : ℕ) (locks : List GitLfsLock) (r : GitVerifyLocksResult)
    → sort_locks user_id locks r ≡ sorted r user_id locks
unfolding sort_locks
sort_locks-sorted user_id [] r = rw (append-nil r.ours, append-nil r.theirs) refl
sort_locks-sorted user_id (l ∷ locks) r = elim (Bool-cases (l.owner_id == user_id)) [
  | inl y ↦
      rw (y, sort_locks-sorted user_id locks _)
        (rw (append_assoc r.ours (l ∷ []) (owned true user_id locks)) refl)
  | inr n ↦
      rw (n, sort_locks-sorted user_id locks _)
        (rw (append_assoc r.theirs (l ∷ []) (owned false user_id locks)) refl)
]

module _ {W : Type 0} (d : Ports W) where
  -- When the locks of a repository are listed, `VerifyLocks` succeeds: it returns as ours those that the
  -- user owns and as theirs all the others, each in the order of the list.
  pub verify_locks-owned :
      (repo_id user_id : ℕ) (locks : List GitLfsLock) (w w' : W)
      → d.find_by_repo repo_id "" (pos 0) w ≡ (ok locks, w')
      → verify_locks d repo_id user_id w ≡ (
        returns (record {
          ours = owned true user_id locks;
          theirs = owned false user_id locks;
          next_cursor = "";
        }),
        w',
      )
  unfolding verify_locks
  verify_locks-owned repo_id user_id locks w w' e = rw (e, sort_locks-sorted user_id locks _) refl
