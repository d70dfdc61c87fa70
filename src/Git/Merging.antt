-- ===== src/Git/Merging.antt =====
-- What a history of calls leaves of a pull request.
use uniedit_server.Common.{
  ◌≡◌, ◌≢◌, ◌⊎◌, inl, inr, refl, sym, ◌∙◌, ap, ℕ, ℕ_Eq, ℤ, Bool, true, false, not, ◌==◌, String_Eq,
  Option, none, some, List, [], ◌∷◌, ok, arith, Port, Safe, SafePort, give, try, Any, Answered-Any,
  Answered-if, Safe-give, Safe-require, Safe-try, Safe-bind, Safe-if, Safe-weaken, Safe-call_then,
  Safe-require_then, Safe-found, ◌&&◌, subst,
}
use uniedit_server.Git.Model.{
  GitPullRequest, GitPermission, read, write, GitPermission_Eq, is_merged, is_closed, pr_open,
  pr_merged, pr_closed, is_public, GitRepo, same_branch, pr_already_merged, pr_already_closed,
}
use uniedit_server.Git.Ports.{Ports}
use uniedit_server.Git.Access.{check_access, can_access, user_access, granted_to}
use uniedit_server.Git.PullRequests.{
  GitCreatePrInput, GitUpdatePrInput, updated_status, updated_pr, merged_pr, create_pr, update_pr,
  merge_pr,
}
use uniedit_server.Git.Table.{Pulls, Reads, PrTable}
use uniedit_server.Git.Calls.{Call, call_create_pr, call_update_pr, call_merge_pr, step, run}

-- The times and the merger fit the status.
abbrev pub Stamps : GitPullRequest → Type 0
Stamps pr =
    ((pr.status ≡ pr_open) × (pr.merged_by ≡ none) × (pr.merged_at ≡ none) × (pr.closed_at ≡ none))
    ⊎ ((pr.status ≡ pr_closed)
        × (pr.merged_by ≡ none)
        × (pr.merged_at ≡ none)
        × (pr.closed_at ≢ none))
    ⊎ ((pr.status ≡ pr_merged)
        × (pr.merged_by ≢ none)
        × (pr.merged_at ≢ none)
        × (pr.closed_at ≡ none))

updated_pr-Stamps :
    (now : ℕ) (input : GitUpdatePrInput) (pr : GitPullRequest)
    → is_merged pr.status ≡ false
    → Stamps pr
    → Stamps (updated_pr now input pr)
unfolding updated_pr updated_status
updated_pr-Stamps now input pr e h = ground arith

merged_pr-Stamps :
    (now user_id : ℕ) (pr : GitPullRequest)
    → is_closed pr.status ≡ false
    → Stamps pr
    → Stamps (merged_pr now user_id pr)
unfolding merged_pr
merged_pr-Stamps now user_id pr e h = ground arith

not-true : (b : Bool) → not b ≡ true → b ≡ false
not-true b h = ground arith

-- An update leaves the repository and the number.
updated_pr_place :
    (now : ℕ) (input : GitUpdatePrInput) (pr : GitPullRequest)
    → ((updated_pr now input pr).repo_id ≡ pr.repo_id)
      × ((updated_pr now input pr).number ≡ pr.number)
unfolding updated_pr updated_status
updated_pr_place now input pr = (ground arith, ground arith)

module _ {W : Type 0} {d : Ports W} {v : Pulls W} (t : PrTable d v) (r : ℕ) (n : ℤ)
    (K : GitPullRequest → Type 0) where
  -- The pull request is there, and K holds of it.
  abbrev Row : W → Type 0
  Row w = (pr : GitPullRequest) × (v w r n ≡ some pr) × K pr

  -- What is found is K, if it is this pull request.
  abbrev IfRow : GitPullRequest → Type 0
  IfRow pr = pr.repo_id ≡ r → pr.number ≡ n → K pr

  same_row :
      (s : ℕ) (m : ℤ) (pr p : GitPullRequest) (w : W)
      → v w s m ≡ some pr
      → s ≡ r
      → m ≡ n
      → v w r n ≡ some p
      → p ≡ pr
  same_row s m pr p w a b c e = cc

  is_some : (w : W) (p : GitPullRequest) → v w r n ≡ some p → v w r n ≢ none
  is_some w p e f = cc

  Reads-Safe : {A : Type 0} (p : Port W A) → Reads v p → SafePort Row p Any
  Reads-Safe p k = record { safe = λ w i. ((i.0, k.keeps w r n ∙ i.1, i.2), Answered-Any (p w).0) }

  find_pr-Safe :
      (s : ℕ) (m : ℤ)
      → SafePort Row (d.find_pr s m) (λ o. (pr : GitPullRequest) → o ≡ some pr → IfRow pr)
  find_pr-Safe s m = record {
    safe = λ w i. (
      (i.0, (t.reads_pr s m).keeps w r n ∙ i.1, i.2),
      Answered-if _ (d.find_pr s m w).0 (λ o e pr g a b.
          let f = t.pr_found s m pr w (e ∙ ap ok g) in
          subst K (same_row s m pr i.0 w f.0 (sym f.1 ∙ a) (sym f.2 ∙ b) i.1) i.2),
    );
  }

  update_pr-Safe : (pr : GitPullRequest) → IfRow pr → SafePort Row (d.update_pr pr) Any
  update_pr-Safe pr q = record {
    safe = λ w i. (
      elim (t.update_pr pr w r n) [
        | inl k ↦ (i.0, k ∙ i.1, i.2)
        | inr k ↦ (pr, k.2, q (sym k.0) (sym k.1))
      ],
      Answered-Any (d.update_pr pr w).0,
    );
  }

  create_pr-Safe : (pr : GitPullRequest) → SafePort Row (d.create_pr pr) Any
  create_pr-Safe pr = record {
    safe = λ w i. (
      (i.0, t.create_pr pr w r n (λ e. is_some w i.0 i.1 e) ∙ i.1, i.2),
      Answered-Any (d.create_pr pr w).0,
    );
  }

  user_access-Safe :
      (repo : GitRepo) (s u : ℕ) (p : GitPermission) → Safe Row (user_access d repo s u p) Any
  user_access-Safe repo s u p = Safe-if (repo.owner_id == u) (Safe-give true tt) (
      Safe-bind (try (d.find_by_repo_and_user s u)) (λ c. give (granted_to c p))
        (Safe-try _ (Reads-Safe _ (t.reads_collaborator s u))) (λ c z. Safe-give _ tt))

  can_access-Safe : (s : ℕ) (u : Option ℕ) (p : GitPermission) → Safe Row (can_access d s u p) Any
  unfolding can_access
  can_access-Safe s none p = Safe-call_then _ (Reads-Safe _ (t.reads_repo s)) (λ o q.
      Safe-bind _ _ (Safe-found o _)
        (λ repo e. Safe-if (is_public repo && p == read) (Safe-give _ tt) (Safe-give _ tt)))
  can_access-Safe s (some u) p = Safe-call_then _ (Reads-Safe _ (t.reads_repo s)) (λ o q.
      Safe-bind _ _ (Safe-found o _) (λ repo e.
        Safe-if (is_public repo && p == read) (Safe-give _ tt) (user_access-Safe repo s u p)))

  check_access-Safe : (s u : ℕ) (p : GitPermission) → Safe Row (check_access d s u p) Any
  unfolding check_access
  check_access-Safe s u p =
      Safe-bind _ _ (can_access-Safe s (some u) p) (λ b q. Safe-weaken (Safe-require b _))

  create_call-Safe : (i s u : ℕ) (input : GitCreatePrInput) → Safe Row (create_pr d i s u input) Any
  unfolding create_pr
  create_call-Safe i s u input = Safe-bind _ _ (check_access-Safe s u read) (λ x q.
      Safe-require_then (not (input.source_branch == input.target_branch)) same_branch (λ e.
        Safe-call_then _ (Reads-Safe _ (t.reads_number s))
          (λ m z. Safe-call_then _ (create_pr-Safe _) (λ y k. Safe-give _ tt))))

  module _
      (upd : (now : ℕ) (input : GitUpdatePrInput) (pr : GitPullRequest)
        → is_merged pr.status ≡ false
        → K pr
        → K (updated_pr now input pr))
      (mrg : (now u : ℕ) (pr : GitPullRequest)
        → is_merged pr.status ≡ false
        → is_closed pr.status ≡ false
        → K pr
        → K (merged_pr now u pr)) where
    update_call-Safe :
        (now s : ℕ) (m : ℤ) (u : ℕ) (input : GitUpdatePrInput)
        → Safe Row (update_pr d now s m u input) Any
    unfolding update_pr
    update_call-Safe now s m u input = Safe-call_then _ (find_pr-Safe s m) (λ o q.
        Safe-bind _ _ (Safe-found o _) (λ pr e.
          Safe-bind _ _ (Safe-if (pr.author_id == u) (Safe-give _ tt) (check_access-Safe s u write))
            (λ x z. Safe-require_then (not (is_merged pr.status)) pr_already_merged (λ g.
              Safe-call_then _
                (update_pr-Safe (updated_pr now input pr) λ a b.
                  let f = updated_pr_place now input pr in
                  upd now input pr (not-true _ g) (q pr e (sym f.0 ∙ a) (sym f.1 ∙ b)))
                (λ y k. Safe-give _ tt)))))

    merge_call-Safe : (now s : ℕ) (m : ℤ) (u : ℕ) → Safe Row (merge_pr d now s m u) Any
    unfolding merge_pr merged_pr
    merge_call-Safe now s m u = Safe-bind _ _ (check_access-Safe s u write) (λ x z.
        Safe-call_then _ (find_pr-Safe s m) (λ o q. Safe-bind _ _ (Safe-found o _) (λ pr e.
          Safe-require_then (not (is_merged pr.status)) pr_already_merged (λ g.
            Safe-require_then (not (is_closed pr.status)) pr_already_closed (λ h.
              Safe-call_then _
                (update_pr-Safe (merged_pr now u pr)
                  (λ a b. mrg now u pr (not-true _ g) (not-true _ h) (q pr e a b)))
                (λ y k. Safe-give _ tt))))))

    step-Row : (c : Call) (w : W) → Row w → Row (step d c w)
    unfolding step
    step-Row (call_create_pr i s u input) w k = ((create_call-Safe i s u input).safe w k).0
    step-Row (call_update_pr now s m u input) w k = ((update_call-Safe now s m u input).safe w k).0
    step-Row (call_merge_pr now s m u) w k = ((merge_call-Safe now s m u).safe w k).0

    run-Row : (calls : List Call) (w : W) → Row w → Row (run d calls w)
    unfolding run
    run-Row [] w k = k
    run-Row (c ∷ calls) w k = run-Row calls (step d c w) (step-Row c w k)

module _ {W : Type 0} {d : Ports W} {v : Pulls W} (t : PrTable d v) where
  -- Where the database keeps its promises, a merged pull request stays as it is over any history of
  -- calls that create, update and merge pull requests, by whomever.
  pub run-Merged :
      (r : ℕ) (n : ℤ) (pr : GitPullRequest) (calls : List Call) (w : W)
      → is_merged pr.status ≡ true
      → v w r n ≡ some pr
      → v (run d calls w) r n ≡ some pr
  run-Merged r n pr calls w m e =
      let k =
        run-Row t r n (λ p. p ≡ pr)
          (λ now input p f g.
            absurd (ground (arith, ap (λ (q : GitPullRequest). is_merged q.status) g)))
          (λ now u p f h g.
            absurd (ground (arith, ap (λ (q : GitPullRequest). is_merged q.status) g)))
          calls w (pr, e, refl) in
      k.1 ∙ ap some k.2

  -- Where the database keeps its promises: a pull request that is open, closed or merged, with the time of
  -- closing exactly when it is closed and the time and user of merging exactly when it is merged, stays
  -- such over any history of calls that create, update and merge pull requests, by whomever.
  pub run-Stamps :
      (r : ℕ) (n : ℤ) (pr : GitPullRequest) (calls : List Call) (w : W)
      → Stamps pr
      → v w r n ≡ some pr
      → (pr' : GitPullRequest) × (v (run d calls w) r n ≡ some pr') × Stamps pr'
  run-Stamps r n pr calls w s e =
      run-Row t r n Stamps updated_pr-Stamps (λ now u p f h g. merged_pr-Stamps now u p h g) calls w
        (pr, e, s)
