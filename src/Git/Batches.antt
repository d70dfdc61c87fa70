-- ===== src/Git/Batches.antt =====
-- internal/domain/git/lfs_domain.go: what `ProcessBatch` answers.
use uniedit_server.Common.{
  ◌≡◌, refl, ◌⊎◌, inl, inr, ℕ, ℤ, lt_ℤ, String, String_Eq, ◌==◌, Bool, true, false, none, List, [],
  ◌∷◌, Result, ok, err, returns, Service, give, by_if, Ensures, ensured, Ensures-bind, Ensures-try,
  Ensures-give, Ensures-require, Ensures-imply, Ensures-call, Ensures-found, eq_iff, sym, arith,
  ◌∙◌, ◌≢◌,
}
use uniedit_server.Git.Model.{
  GitPermission, GitAccessResult, GitPresignedUrl, GitError, access_denied, lfs_not_enabled,
  repo_not_found, from_port, write, read,
}
use uniedit_server.Git.Ports.{Ports}
use uniedit_server.Git.Repos.{Config}
use uniedit_server.Git.Objects.{
  GitLfsPointer, GitLfsBatchRequest, GitLfsBatchResponse, GitLfsMessage, GitLfsObjectResponse,
  required_permission, linked, new_response, refused, download_existing, download_actions,
  upload_missing, upload_actions, process_batch_object, process_objects, process_batch,
}

-- The two lists are as long, and their members are related in order.
abbrev pub Each : {A B : Type 0} → (A → B → Type 0) → List A → List B → Type 0
Each R [] [] = Unit
Each R (x ∷ xs) (y ∷ ys) = R x y × Each R xs ys
Each R _ _ = ⊥

-- The storage and the rights of users do not change during the call.
pub record Fixed {W : Type 0} (d : Ports W) : Type 0 where
  pub stored : String → Bool
  pub may : ℕ → ℕ → GitPermission → Bool
  pub exists_row :
      (oid : String) (b : Bool) (w w' : W) → d.exists oid w ≡ (ok b, w') → b ≡ stored oid
  pub access_row :
      (user_id repo_id : ℕ) (p : GitPermission) (r : GitAccessResult) (w w' : W)
      → d.check_access user_id repo_id p w ≡ (ok r, w')
      → r.allowed ≡ may user_id repo_id p

module _ {W : Type 0} (d : Ports W) (x : Fixed d) (cfg : Config) (expires_in : ℤ) where
  abbrev pub Granted : String → GitLfsPointer → GitLfsObjectResponse → Type 0
  Granted operation obj r =
      (r.error ≡ none)
      × (lt_ℤ cfg.max_lfs_file_size obj.size ≡ false)
      × (((operation == "download") ≡ false) ⊎ (x.stored obj.oid ≡ true))

  -- An error alone, without actions.
  abbrev pub Refused : GitLfsPointer → GitLfsObjectResponse → Type 0
  Refused obj r = (code : ℤ) × (message : GitLfsMessage) × (r ≡ refused obj code message)

  abbrev pub Answers : String → GitLfsPointer → GitLfsObjectResponse → Type 0
  Answers operation obj r =
      (r.oid ≡ obj.oid) × (r.size ≡ obj.size) × (Granted operation obj r ⊎ Refused obj r)

  as_refused :
      (operation : String) (obj : GitLfsPointer) (code : ℤ) (message : GitLfsMessage)
      → Answers operation obj (refused obj code message)
  as_refused operation obj code message = (refl, refl, inr (code, message, refl))

  download_Answers :
      (operation : String) (obj : GitLfsPointer) (u : Result String GitPresignedUrl)
      → lt_ℤ cfg.max_lfs_file_size obj.size ≡ false
      → x.stored obj.oid ≡ true
      → Answers operation obj (download_actions d cfg expires_in obj u)
  download_Answers operation obj (ok u) h s = (refl, refl, inl (refl, h, inr s))
  download_Answers operation obj (err m) h s = as_refused operation obj _ _

  upload_Answers :
      (operation : String) (obj : GitLfsPointer) (u : Result String GitPresignedUrl)
      → lt_ℤ cfg.max_lfs_file_size obj.size ≡ false
      → (operation == "download") ≡ false
      → Answers operation obj (upload_actions d cfg expires_in obj u)
  upload_Answers operation obj (ok u) h o = (refl, refl, inl (refl, h, inl o))
  upload_Answers operation obj (err m) h o = as_refused operation obj _ _

  download_existing-Ensures :
      (operation : String) (obj : GitLfsPointer) (r : Result String Bool) (w w1 : W)
      → lt_ℤ cfg.max_lfs_file_size obj.size ≡ false
      → d.exists obj.oid w ≡ (r, w1)
      → Ensures (download_existing d cfg expires_in obj r) w1 (λ a w'. Answers operation obj a)
  download_existing-Ensures operation obj (err m) w w1 h e =
      Ensures-give _ w1 (as_refused operation obj _ _)
  download_existing-Ensures operation obj (ok false) w w1 h e =
      Ensures-give _ w1 (as_refused operation obj _ _)
  download_existing-Ensures operation obj (ok true) w w1 h e =
      Ensures-bind _ (λ u. give (download_actions d cfg expires_in obj u)) w1
        (Ensures-try (d.generate_download_url obj.oid cfg.presigned_url_expiry) w1 (λ u w2 z.
          Ensures-give _ w2
            (download_Answers operation obj u h (sym (x.exists_row obj.oid true w w1 e)))))

  upload_missing-Ensures :
      (repo_id : ℕ) (operation : String) (obj : GitLfsPointer) (r : Result String Bool) (w : W)
      → lt_ℤ cfg.max_lfs_file_size obj.size ≡ false
      → (operation == "download") ≡ false
      → Ensures (upload_missing d cfg expires_in repo_id obj r) w (λ a w'. Answers operation obj a)
  upload_missing-Ensures repo_id operation obj (err m) w h o =
      Ensures-give _ w (as_refused operation obj _ _)
  upload_missing-Ensures repo_id operation obj (ok true) w h o = Ensures-bind _ _ w (
      Ensures-try (d.link_object repo_id obj.oid) w
        (λ u w1 z. Ensures-give (linked obj) w1 (refl, refl, inl (refl, h, inl o))))
  upload_missing-Ensures repo_id operation obj (ok false) w h o =
      Ensures-bind _ (λ u. give (upload_actions d cfg expires_in obj u)) w
        (Ensures-try (d.generate_upload_url obj.oid obj.size cfg.presigned_url_expiry) w
          (λ u w2 z. Ensures-give _ w2 (upload_Answers operation obj u h o)))

  abbrev Answering : String → GitLfsPointer → W → Service W GitError GitLfsObjectResponse → Type 0
  Answering operation obj w m = Ensures m w (λ a w'. Answers operation obj a)

  process_batch_object-Ensures :
      (repo_id : ℕ) (obj : GitLfsPointer) (operation : String) (w : W)
      → Answering operation obj w (process_batch_object d cfg expires_in repo_id obj operation)
  unfolding process_batch_object
  process_batch_object-Ensures repo_id obj operation w =
      by_if (Answering operation obj w) (lt_ℤ cfg.max_lfs_file_size obj.size)
        (λ h. Ensures-give _ w (as_refused operation obj _ _))
        (λ h.
          by_if (Answering operation obj w) (operation == "download")
            (λ o.
              Ensures-bind _ (λ r. download_existing d cfg expires_in obj r) w
                (Ensures-try (d.exists obj.oid) w
                  (λ r w1 e. download_existing-Ensures operation obj r w w1 h e)))
            (λ o.
              by_if (Answering operation obj w) (operation == "upload")
                (λ p.
                  Ensures-bind _ (λ r. upload_missing d cfg expires_in repo_id obj r) w
                    (Ensures-try (d.exists obj.oid) w
                      (λ r w1 e. upload_missing-Ensures repo_id operation obj r w1 h o)))
                (λ p. Ensures-give (new_response obj) w (refl, refl, inl (refl, h, inl o)))))

  process_objects-Ensures :
      (repo_id : ℕ) (objects : List GitLfsPointer) (operation : String) (w : W)
      → Ensures
          (process_objects d cfg expires_in repo_id objects operation)
          w
          (λ rs w'. Each (Answers operation) objects rs)
  unfolding process_objects
  process_objects-Ensures repo_id [] operation w = Ensures-give [] w tt
  process_objects-Ensures repo_id (obj ∷ objects) operation w =
      Ensures-bind (process_batch_object d cfg expires_in repo_id obj operation) _ w (
        Ensures-imply _ w (process_batch_object-Ensures repo_id obj operation w) (λ r a.
          Ensures-bind (process_objects d cfg expires_in repo_id objects operation)
            (λ rs. give (r ∷ rs)) _
            (Ensures-imply _ _ (process_objects-Ensures repo_id objects operation _)
              (λ rs b. Ensures-give _ _ (a, b)))))

  -- Who uploads may write to the repository, and anybody else may read it.
  abbrev pub Allowed : ℕ → ℕ → String → Type 0
  Allowed repo_id user_id operation =
      ((operation ≡ "upload") × (x.may user_id repo_id write ≡ true))
      ⊎ ((operation ≢ "upload") × (x.may user_id repo_id read ≡ true))

  allowed :
      (repo_id user_id : ℕ) (operation : String)
      → x.may user_id repo_id (required_permission operation) ≡ true
      → Allowed repo_id user_id operation
  allowed repo_id user_id operation =
      by_if (λ p. x.may user_id repo_id p ≡ true → Allowed repo_id user_id operation)
        (operation == "upload") (λ e h. inl ((eq_iff operation "upload").0 e, h))
        (λ e h. inr (λ u. ground (arith, e, (eq_iff operation "upload").1 u), h))

  process_batch-Ensures :
      (repo_id user_id : ℕ) (request : GitLfsBatchRequest) (w : W)
      → Ensures (process_batch d cfg expires_in repo_id user_id request) w (λ response w'.
        Allowed repo_id user_id request.operation
        × Each (Answers request.operation) request.objects response.objects)
  unfolding process_batch
  process_batch-Ensures repo_id user_id request w = Ensures-bind _ _ w (
      Ensures-call from_port (d.find_repo repo_id) w (λ o w1 e. Ensures-bind _ _ w1 (
        Ensures-found o repo_not_found w1 (λ repo f. Ensures-bind _ _ w1 (
          Ensures-require repo.lfs_enabled lfs_not_enabled w1 (λ b. Ensures-bind _ _ w1 (
            Ensures-call from_port
              (d.check_access user_id repo_id (required_permission request.operation)) w1
              (λ result w2 g. Ensures-bind _ _ w2 (
                Ensures-require result.allowed access_denied w2 (λ a. Ensures-bind _ _ w2 (
                  Ensures-imply _ w2
                    (process_objects-Ensures repo_id request.objects request.operation w2)
                    (λ rs q. Ensures-give _ _ (
                      allowed repo_id user_id request.operation
                          (sym (x.access_row _ _ _ result w1 w2 g) ∙ a),
                      q,
                    )))))))))))))

  -- Where the storage and the rights of users do not change during the call: who gets an answer to a batch may
  -- write to the repository, if the operation is "upload", and may read it otherwise. The answer has one
  -- response for each object, in order, with its id and size: either an error and nothing else, or no
  -- error, and then the object is within the limit of the size and, for a download, in the storage.
  pub process_batch_lem :
      (repo_id user_id : ℕ) (request : GitLfsBatchRequest) (response : GitLfsBatchResponse)
      (w w' : W)
      → process_batch d cfg expires_in repo_id user_id request w ≡ (returns response, w')
      → Allowed repo_id user_id request.operation
        × Each (Answers request.operation) request.objects response.objects
  process_batch_lem repo_id user_id request response w w' e =
      ensured _ response w w' (process_batch-Ensures repo_id user_id request w) e
