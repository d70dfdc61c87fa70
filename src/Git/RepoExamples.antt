-- ===== src/Git/RepoExamples.antt =====
-- Repositories and LFS objects at concrete calls, over the database of PullExamples.
use uniedit_server.Common.{
  ◌≡◌, ◌⊎◌, refl, ℕ, ℕ_Eq, ℤ_Eq, pos, true, false, String_Eq, String, [], ◌∷◌, none, ok, err,
  returns, arith,
}
use uniedit_server.Git.Model.{other_visibility}
use uniedit_server.Git.Ports.{Filesystem}
use uniedit_server.Git.Slugs.{
  generate_slug, slug_matches, has_double, chars, is_alnum, hyphenated, slug_chars, halve_hyphens,
  collapse, trim_left, trim_right, slug_of,
}
use uniedit_server.Git.SlugLaws.{generate_slug_lem}
use uniedit_server.Git.Repos.{
  Config, GitCreateRepoInput, create_repo, new_repo, check_quota, store_repo,
}
use uniedit_server.Git.Objects.{
  GitLfsBatchRequest, GitLfsBatchResponse, size_exceeds, refused, upload_actions, process_batch,
  process_objects, process_batch_object,
}
use uniedit_server.Git.Batches.{Fixed, Allowed, Each, Answers, process_batch_lem}
use uniedit_server.Git.Storage.{init_bare_repo, write_text, make_dirs}
use uniedit_server.Git.Creation.{create_repo_lem}
use uniedit_server.Git.PullExamples.{Rows, rows}

-- The slug of a name with a run of spaces and other characters.
generate_slug_lem_example :
    (generate_slug (λ s. s) "_my   code! editor " ≡ "")
    ⊎ ((slug_matches (generate_slug (λ s. s) "_my   code! editor ") ≡ true)
        × (has_double (chars (generate_slug (λ s. s) "_my   code! editor ")) ≡ false))
generate_slug_lem_example = generate_slug_lem (λ s. s) "_my   code! editor "

slug_run : generate_slug (λ s. s) "_my   code! editor " ≡ "my-code-editor"
unfolding generate_slug slug_of hyphenated slug_chars halve_hyphens collapse trim_left trim_right
    is_alnum
slug_run = refl

abbrev disk : Filesystem Rows
disk = record {
  create_file = λ fs name w. (ok 3, w);
  write_file = λ file content w. (ok tt, w);
  close_file = λ file w. (ok tt, w);
  mkdir_all = λ fs name w. (ok tt, w);
}

abbrev config : Config
config = record {
  repo_prefix = "repos/";
  lfs_prefix = "lfs/";
  max_lfs_file_size = pos 100;
  presigned_url_expiry = pos 3600;
  default_branch = "main";
  base_url = "";
}

abbrev viewer : GitCreateRepoInput
viewer = record {
  name = "Viewer";
  repo_type = "";
  visibility = other_visibility "";
  description = "";
  lfs_enabled = false;
}

abbrev no_rows : Rows
no_rows r n = none

-- Only a lookup that fails lets a repository be created.
viewer_created :
    create_repo rows disk none config (λ s. "viewer") 12 "r/12" 5 viewer no_rows
    ≡ (returns (new_repo config 12 5 "viewer" "r/12" viewer), no_rows)
unfolding create_repo slug_matches generate_slug slug_of trim_right trim_left collapse slug_chars
    hyphenated is_alnum check_quota init_bare_repo write_text make_dirs store_repo
viewer_created = refl

create_repo_lem_example :
    (◌≡◌ {A = ℕ} 5 5)
    × (slug_matches "viewer" ≡ true)
    × ((m : String) × ((rows.find_repo_by_slug 5 "viewer" no_rows).0 ≡ err m))
create_repo_lem_example =
    create_repo_lem rows disk none config (λ s. "viewer") 12 "r/12" 5 viewer
      (new_repo config 12 5 "viewer" "r/12" viewer) no_rows no_rows viewer_created

-- The first is too large, and the storage does not have the second.
abbrev batch : GitLfsBatchRequest
batch = record {
  operation = "upload";
  objects = record { oid = "big"; size = pos 101 } ∷ record { oid = "small"; size = pos 7 } ∷ [];
}

abbrev answer : GitLfsBatchResponse
answer = record {
  transfer = "basic";
  objects =
      refused (record { oid = "big"; size = pos 101 }) (pos 422) (size_exceeds (pos 100))
      ∷ upload_actions rows config (pos 60) (record { oid = "small"; size = pos 7 })
          (ok (record { url = "small"; method = "PUT"; expires_at = 9 }))
      ∷ [];
}

abbrev rows-Fixed : Fixed rows
rows-Fixed = record {
  stored = λ oid. false;
  may = λ user repo p. true;
  exists_row = λ oid b w w' e. ground (arith, e);
  access_row = λ user repo p r w w' e. ground (arith, e);
}

process_batch_lem_example :
    Allowed rows rows-Fixed config (pos 60) 9 5 "upload"
    × Each (Answers rows rows-Fixed config (pos 60) "upload") batch.objects answer.objects
unfolding process_batch process_objects process_batch_object
process_batch_lem_example =
    process_batch_lem rows rows-Fixed config (pos 60) 9 5 batch answer no_rows no_rows refl
