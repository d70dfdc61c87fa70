-- ===== src/Git/Creation.antt =====
-- Which repositories are created, and who may change one.
use uniedit_server.Common.{
  ◌≡◌, ◌≢◌, refl, sym, ◌∙◌, ap, ℕ, ℕ_Eq, true, not, String, Option, some, Result, ok, err, arith,
  returns, fails_with, Ensures, ensured, Ensures-bind, Ensures-require, Ensures-try, Ensures-all,
  Ensures-give, give, raise, try, require, Service, Ensures-imply, ◌>>=◌, subst, ◌>>◌,
}
use uniedit_server.Git.Model.{
  GitRepo, GitPermission, GitError, not_owner, invalid_repo_name, repo_already_exists, from_port,
}
use uniedit_server.Git.Ports.{Ports, Filesystem, QuotaChecker}
use uniedit_server.Git.Slugs.{generate_slug, slug_matches}
use uniedit_server.Git.Storage.{init_bare_repo}
use uniedit_server.Git.Repos.{
  Config, GitCreateRepoInput, new_repo, answered, check_quota, store_repo, create_repo, delete_repo,
}
use uniedit_server.Git.Collaborators.{add_collaborator, update_collaborator, remove_collaborator}

unanswered :
    {A : Type 0} (r : Result String A) → not (answered r) ≡ true → (m : String) × (r ≡ err m)
unanswered (ok a) e = absurd (ground arith)
unanswered (err m) e = (m, refl)

module _ {W : Type 0} (d : Ports W) where
  stored-Ensures :
      (repo : GitRepo) (r : Result String (Unit {0})) (w : W)
      → Ensures
          (elim r as (λ r. Service W GitError GitRepo) [
            | err m ↦
                (try (d.delete_repository repo.storage_path) >>= λ ignored. raise (from_port m))
            | ok x ↦ give repo
          ])
          w
          (λ r' w'. r' ≡ repo)
  stored-Ensures repo (ok x) w = Ensures-give repo w refl
  stored-Ensures repo (err m) w = record { holds = tt }

  store_repo-Ensures : (repo : GitRepo) (w : W) → Ensures (store_repo d repo) w (λ r w'. r ≡ repo)
  unfolding store_repo
  store_repo-Ensures repo w =
      Ensures-bind _ _ w (Ensures-try (d.create_repo repo) w (λ r w' e. stored-Ensures repo r w'))

  module _ (fs : Filesystem W) (q : Option (QuotaChecker W)) (cfg : Config) where
    -- A created repository belongs to the caller, its slug matches `slugRegex`, and the lookup for another
    -- repository with that slug has failed with an error.
    abbrev pub Created : (String → String) → ℕ → GitCreateRepoInput → W → GitRepo → Type 0
    Created to_lower owner_id input w repo =
        (repo.owner_id ≡ owner_id)
        × (slug_matches repo.slug ≡ true)
        × ((m : String) × ((d.find_repo_by_slug owner_id repo.slug w).0 ≡ err m))

    made :
        {A : Type 0} {p : Result String A × W} (r : Result String A) (w w1 : W)
        → p ≡ (r, w1)
        → not (answered r) ≡ true
        → (m : String) × (p.0 ≡ err m)
    made r w w1 e b = let f = unanswered r b in (f.0, ap (λ (x : Result String _ × W). x.0) e ∙ f.1)

    create_repo-Ensures :
        (to_lower : String → String) (new_id : ℕ) (path : String) (owner_id : ℕ)
        (input : GitCreateRepoInput) (w : W)
        → Ensures
            (create_repo d fs q cfg to_lower new_id path owner_id input)
            w
            (λ repo w'. Created to_lower owner_id input w repo)
    unfolding create_repo
    create_repo-Ensures to_lower new_id path owner_id input w =
        let slug = generate_slug to_lower input.name in
        let repo = new_repo cfg new_id owner_id slug path input in
        Ensures-bind _ _ w (
          Ensures-require (slug_matches slug) invalid_repo_name w (λ a.
            Ensures-bind _
              (λ r.
                require (not (answered r)) repo_already_exists
                >> (check_quota q owner_id >> (init_bare_repo d fs repo >> store_repo d repo)))
              w
              (Ensures-try (d.find_repo_by_slug owner_id slug) w (λ r w1 e. Ensures-bind _ _ w1 (
                Ensures-require (not (answered r)) repo_already_exists w1 (λ b.
                  Ensures-bind (check_quota q owner_id)
                    (λ x. init_bare_repo d fs repo >> store_repo d repo) w1
                    (Ensures-all (check_quota q owner_id) w1 (λ x w2.
                      Ensures-bind (init_bare_repo d fs repo) (λ x. store_repo d repo) w2
                        (Ensures-all (init_bare_repo d fs repo) w2 (λ y w3.
                          Ensures-imply (store_repo d repo) w3 (store_repo-Ensures repo w3) (λ r' z.
                            subst (Created to_lower owner_id input w) (sym z)
                              (refl, a, made r w w1 e b))))))))))))

    -- A repository that `CreateRepo` returns belongs to the caller, its slug matches `slugRegex`, and the
    -- lookup for another repository of the caller with that slug failed with an error: where the lookup
    -- answers, with a repository or with none, no repository is returned.
    pub create_repo_lem :
        (to_lower : String → String) (new_id : ℕ) (path : String) (owner_id : ℕ)
        (input : GitCreateRepoInput) (repo : GitRepo) (w w' : W)
        → create_repo d fs q cfg to_lower new_id path owner_id input w ≡ (returns repo, w')
        → (repo.owner_id ≡ owner_id)
          × (slug_matches repo.slug ≡ true)
          × ((m : String) × ((d.find_repo_by_slug owner_id repo.slug w).0 ≡ err m))
    create_repo_lem to_lower new_id path owner_id input repo w w' e =
        ensured _ repo w w' (create_repo-Ensures to_lower new_id path owner_id input w) e

  -- Who does not own a repository that is found can neither delete it nor add, change or remove a
  -- collaborator: each call fails as `ErrNotOwner` and changes nothing after the lookup.
  pub not_owner_refused :
      (now repo_id user_id target_user_id : ℕ) (permission : GitPermission) (repo : GitRepo)
      (w w' : W)
      → d.find_repo repo_id w ≡ (ok (some repo), w')
      → repo.owner_id ≢ user_id
      → (delete_repo d repo_id user_id w ≡ (fails_with not_owner, w'))
        × (add_collaborator d now repo_id user_id target_user_id permission w
            ≡ (fails_with not_owner, w'))
        × (update_collaborator d repo_id user_id target_user_id permission w
            ≡ (fails_with not_owner, w'))
        × (remove_collaborator d repo_id user_id target_user_id w ≡ (fails_with not_owner, w'))
  unfolding delete_repo add_collaborator update_collaborator remove_collaborator
  not_owner_refused now repo_id user_id target permission repo w w' e n =
      (ground arith, ground arith, ground arith, ground arith)
