-- ===== src/Git/Storage.antt =====
-- internal/domain/git/domain.go: `initBareRepo`.
use Prim.Native.String.{◌++◌ as text_append}
use uniedit_server.Common.{
  ℕ, ℕ_Eq, ◌==◌, if◌then◌else◌, String, String_Eq, List, [], ◌∷◌, ok, err, Service, ◌>>=◌, ◌>>◌,
  give, raise, try, call,
}
use uniedit_server.Git.Model.{GitRepo, GitError, from_port}
use uniedit_server.Git.Ports.{Ports, Filesystem}

abbrev config_text : String
config_text = "[core]\n\trepositoryformatversion = 0\n\tfilemode = true\n\tbare = true\n"

module _ {W : Type 0} (fs : Filesystem W) where
  -- One file: the writer is closed when the write fails, too.
  unfoldable pub write_text : ℕ → String → String → Service W GitError (Unit {0})
  write_text disk name content = do
    file ← call from_port (fs.create_file disk name)
    written ← try (fs.write_file file content)
    elim written [
      | err m ↦ (do ignored ← try (fs.close_file file); raise (from_port m))
      | ok x ↦ call from_port (fs.close_file file)
    ]

  unfoldable pub make_dirs : ℕ → List String → Service W GitError (Unit {0})
  make_dirs disk [] = give tt
  make_dirs disk (dir ∷ dirs) = do call from_port (fs.mkdir_all disk dir); make_dirs disk dirs

module _ {W : Type 0} (d : Ports W) (fs : Filesystem W) where
  unfoldable pub init_bare_repo : GitRepo → Service W GitError (Unit {0})
  init_bare_repo repo = do
    disk ← call from_port (d.get_filesystem repo.storage_path)
    write_text fs disk "HEAD"
        (text_append "ref: refs/heads/" (text_append repo.default_branch "\n"))
    write_text fs disk "config" config_text
    make_dirs fs disk (
        "objects" ∷ "objects/info" ∷ "objects/pack" ∷ "refs" ∷ "refs/heads" ∷ "refs/tags" ∷ "info"
        ∷ [])
    write_text fs disk "info/exclude" "# git ls-files --others --exclude-from=.git/info/exclude\n"
    write_text fs disk "description" (
        if repo.description == ""
        then "Unnamed repository; edit this file 'description' to name the repository.\n"
        else text_append repo.description "\n")
