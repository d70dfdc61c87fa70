-- ===== src/Git/Objects.antt =====
-- internal/domain/git/lfs_domain.go: the batch requests for LFS objects, and their records.
use Prim.Native.String.{◌++◌}
use uniedit_server.Common.{
  ℕ, ℤ, ℤ_Eq, String, String_Eq, Bool, true, false, ◌==◌, if◌then◌else◌, lt_ℤ, pos, Option, none,
  some, List, [], ◌∷◌, Result, ok, err, Service, give, require, try, call, found, ◌>>=◌, ◌>>◌,
}
use uniedit_server.Git.Model.{
  GitPermission, read, write, GitLfsObject, GitPresignedUrl, GitError, repo_not_found,
  access_denied, lfs_not_enabled, lfs_object_not_found, size_mismatch, from_port,
}
use uniedit_server.Git.Ports.{Ports}
use uniedit_server.Git.Repos.{Config}

pub record GitLfsPointer : Type 0 where
  pub oid : String
  pub size : ℤ

pub record GitLfsBatchRequest : Type 0 where
  pub operation : String
  pub objects : List GitLfsPointer

-- The text that names the limit, or another one.
pub data GitLfsMessage : Type 0 where
  size_exceeds : ℤ → GitLfsMessage
  plain : String → GitLfsMessage

pub record GitLfsError : Type 0 where
  pub code : ℤ
  pub message : GitLfsMessage

-- An action under its name.
pub record GitLfsAction : Type 0 where
  pub name : String
  pub href : String
  pub expires_in : ℤ

pub record GitLfsObjectResponse : Type 0 where
  pub oid : String
  pub size : ℤ
  pub authenticated : Bool
  pub actions : List GitLfsAction
  pub error : Option GitLfsError

pub record GitLfsBatchResponse : Type 0 where
  pub transfer : String
  pub objects : List GitLfsObjectResponse

abbrev pub new_response : GitLfsPointer → GitLfsObjectResponse
new_response obj = record {
  oid = obj.oid;
  size = obj.size;
  authenticated = false;
  actions = [];
  error = none;
}

abbrev pub refused : GitLfsPointer → ℤ → GitLfsMessage → GitLfsObjectResponse
refused obj code message = record (new_response obj) {
  error = some (record { code = code; message = message });
}

abbrev pub linked : GitLfsPointer → GitLfsObjectResponse
linked obj = record (new_response obj) { authenticated = true }

abbrev pub with_actions : GitLfsPointer → List GitLfsAction → GitLfsObjectResponse
with_actions obj actions = record (new_response obj) { actions = actions }

abbrev pub required_permission : String → GitPermission
required_permission operation = if operation == "upload" then write else read

-- `expires_in` is `int(PresignedURLExpiry.Seconds())`.
module _ {W : Type 0} (d : Ports W) (cfg : Config) (expires_in : ℤ) where
  abbrev pub action : String → String → GitLfsAction
  action name href = record { name = name; href = href; expires_in = expires_in }

  abbrev pub download_actions : GitLfsPointer → Result String GitPresignedUrl → GitLfsObjectResponse
  download_actions obj (err m) = refused obj (pos 500) (plain "failed to generate download URL")
  download_actions obj (ok u) = with_actions obj (action "download" u.url ∷ [])

  -- What `Exists` answers leads on.
  abbrev pub download_existing :
      GitLfsPointer → Result String Bool → Service W GitError GitLfsObjectResponse
  download_existing obj (err m) = give (refused obj (pos 500) (plain "internal error"))
  download_existing obj (ok false) = give (refused obj (pos 404) (plain "object not found"))
  download_existing obj (ok true) = do
    u ← try (d.generate_download_url obj.oid cfg.presigned_url_expiry)
    give (download_actions obj u)

  abbrev pub upload_actions : GitLfsPointer → Result String GitPresignedUrl → GitLfsObjectResponse
  upload_actions obj (err m) = refused obj (pos 500) (plain "failed to generate upload URL")
  upload_actions obj (ok u) = with_actions obj (
      action "upload" u.url
      ∷ action "verify" (cfg.base_url ++ "/lfs/objects/" ++ obj.oid ++ "/verify")
      ∷ [])

  abbrev pub upload_missing :
      ℕ → GitLfsPointer → Result String Bool → Service W GitError GitLfsObjectResponse
  upload_missing repo_id obj (err m) = give (refused obj (pos 500) (plain "internal error"))
  upload_missing repo_id obj (ok true) = do
    ignored ← try (d.link_object repo_id obj.oid)
    give (linked obj)
  upload_missing repo_id obj (ok false) = do
    u ← try (d.generate_upload_url obj.oid obj.size cfg.presigned_url_expiry)
    give (upload_actions obj u)

  unfoldable pub process_batch_object :
      ℕ → GitLfsPointer → String → Service W GitError GitLfsObjectResponse
  process_batch_object repo_id obj operation =
      if lt_ℤ cfg.max_lfs_file_size obj.size
      then give (refused obj (pos 422) (size_exceeds cfg.max_lfs_file_size))
      else if operation == "download"
      then (do exists ← try (d.exists obj.oid); download_existing obj exists)
      else if operation == "upload"
      then (do exists ← try (d.exists obj.oid); upload_missing repo_id obj exists)
      else give (new_response obj)

  unfoldable pub process_objects :
      ℕ → List GitLfsPointer → String → Service W GitError (List GitLfsObjectResponse)
  process_objects repo_id [] operation = give []
  process_objects repo_id (obj ∷ objects) operation = do
    r ← process_batch_object repo_id obj operation
    rs ← process_objects repo_id objects operation
    give (r ∷ rs)

  unfoldable pub process_batch : ℕ → ℕ → GitLfsBatchRequest → Service W GitError GitLfsBatchResponse
  process_batch repo_id user_id request = do
    repo ← found (← call from_port (d.find_repo repo_id)) repo_not_found
    require repo.lfs_enabled lfs_not_enabled
    result ← call from_port (d.check_access user_id repo_id (required_permission request.operation))
    require result.allowed access_denied
    objects ← process_objects repo_id request.objects request.operation
    give (record { transfer = "basic"; objects = objects })

module _ {W : Type 0} (d : Ports W) where
  unfoldable pub get_object : String → Service W GitError GitLfsObject
  get_object oid = do found (← call from_port (d.find_object oid)) lfs_object_not_found

  abbrev pub new_object : Config → ℕ → String → ℤ → GitLfsObject
  new_object cfg now oid size = record {
    oid = oid;
    size = size;
    storage_key = cfg.lfs_prefix ++ oid;
    content_type = "";
    created_at = now;
  }

  unfoldable pub create_object : Config → ℕ → ℕ → String → ℤ → Service W GitError (Unit {0})
  create_object cfg now repo_id oid size = do
    call from_port (d.create_object (new_object cfg now oid size))
    call from_port (d.link_object repo_id oid)

  unfoldable pub link_object : ℕ → String → Service W GitError (Unit {0})
  link_object repo_id oid = call from_port (d.link_object repo_id oid)

  unfoldable pub upload : String → ℕ → ℤ → Service W GitError (Unit {0})
  upload oid content size = call from_port (d.upload oid content size)

  unfoldable pub verify_object : String → ℤ → Service W GitError (Unit {0})
  verify_object oid expected_size = do
    exists ← call from_port (d.exists oid)
    require exists lfs_object_not_found
    obj ← found (← call from_port (d.find_object oid)) lfs_object_not_found
    require (obj.size == expected_size) size_mismatch

  unfoldable pub generate_upload_url : Config → String → ℤ → Service W GitError GitPresignedUrl
  generate_upload_url cfg oid size =
      call from_port (d.generate_upload_url oid size cfg.presigned_url_expiry)

  unfoldable pub generate_download_url : Config → String → Service W GitError GitPresignedUrl
  generate_download_url cfg oid =
      call from_port (d.generate_download_url oid cfg.presigned_url_expiry)
