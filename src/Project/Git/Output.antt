-- ===== src/Project/Git/Output.antt =====
-- The commands of `GitService` and `read_bounded` in crates/maestro-project/src/git.rs.
pub mod Bounded
use Prim.Native.Char.{code}
use maestro_app.Prelude.{
  ℕ, ◌+◌, ◌*◌, String, Bool, true, false, not, ◌&&◌, ◌||◌, Option, none, some, List, [], ◌∷◌, ◌++◌,
  map, if◌then◌else◌, ltb, leb, ◌==◌, length, take, Result, ok, err, ◌>>=◌, ◌>>◌, codes,
  ascii_lowercase, contains_text, from_utf8_lossy, any, trim,
}
use maestro_app.Project.Paths.{
  ProjectError, git_unavailable, git_failed, git_output_too_large, not_git_repository,
  invalid_limit, io, FilePath,
}
use maestro_app.Project.Roots.{RootCapability}
use maestro_app.Project.Access.{Directories, open_directory}
use maestro_app.Project.Git.Status.{GitStatus, parse_status}
use maestro_app.Project.Git.Worktrees.{WorktreeInfo, parse_worktrees}

abbrev pub maximum_git_metadata_bytes : ℕ
maximum_git_metadata_bytes = 16 * 1024 * 1024

abbrev pub maximum_git_stderr_bytes : ℕ
maximum_git_stderr_bytes = 64 * 1024

abbrev pub maximum_diff_bytes : ℕ
maximum_diff_bytes = 32 * 1024 * 1024

-- A process that was started: what its pipes yield, and whether it ends well, after it was killed
-- or by itself.
pub record Child : Type 0 where
  pub stdout : Result (List ℕ) (Unit {0})
  pub stderr : Result (List ℕ) (Unit {0})
  pub success : (killed : Bool) → Option Bool

-- The installed Git, in a directory and with arguments: none when it cannot be started.
abbrev pub Git : Type 0
Git = FilePath → List String → Option Child

pub record GitCommandOutput : Type 0 where
  pub success : Bool
  pub stdout : List ℕ
  pub stderr : List ℕ
  pub truncated : Bool

-- One byte more than the maximum is read, to see that there is more.
abbrev pub bounded : List ℕ → ℕ → List ℕ × Bool
bounded bytes maximum =
    if ltb maximum (length bytes) then (take maximum bytes, true) else (bytes, false)

unfoldable pub read_bounded : Result (List ℕ) (Unit {0}) → ℕ → Result (List ℕ × Bool) ProjectError
read_bounded (err failure) maximum = err io
read_bounded (ok yielded) maximum = ok (bounded (take (maximum + 1) yielded) maximum)

abbrev pub child_of : Option Child → Result Child ProjectError
child_of none = err git_unavailable
child_of (some child) = ok child

abbrev pub status_of : Option Bool → Result Bool ProjectError
status_of none = err io
status_of (some success) = ok success

unfoldable pub run : Git → FilePath → List String → ℕ → Result GitCommandOutput ProjectError
unfolding read_bounded
run git repository arguments maximum_stdout = do
  child ← child_of (git repository arguments)
  stdout ← read_bounded child.stdout maximum_stdout
  success ← status_of (child.success stdout.1)
  stderr ← read_bounded child.stderr maximum_git_stderr_bytes
  ok record { success = success; stdout = stdout.0; stderr = stderr.0; truncated = stdout.1 }

unfoldable pub is_not_repository : List ℕ → Bool
unfolding from_utf8_lossy contains_text
is_not_repository stderr =
    contains_text (map ascii_lowercase (from_utf8_lossy stderr)) (codes "not a git repository")

unfoldable pub require_success : GitCommandOutput → Result (Unit {0}) ProjectError
unfolding is_not_repository
require_success output =
    if output.success
    then ok tt
    else if is_not_repository output.stderr
    then err not_git_repository
    else err git_failed

unfoldable pub authorized_repository :
    Directories → List RootCapability → FilePath → Result FilePath ProjectError
unfolding open_directory
authorized_repository system roots repository = do
  directory ← open_directory system roots repository
  ok directory.canonical

abbrev pub whole : GitCommandOutput → Result (List ℕ) ProjectError
whole output = if output.truncated then err git_output_too_large else ok output.stdout

abbrev pub status_arguments : List String
status_arguments =
    "-c" ∷ "core.quotepath=false" ∷ "status" ∷ "--porcelain=v2" ∷ "-z" ∷ "--ignored=matching"
    ∷ "--untracked-files=all" ∷ "--" ∷ []

-- `GitService`: the roots of the project, with the directories that they open, and the Git.
pub record GitService : Type 0 where
  pub system : Directories
  pub roots : List RootCapability
  pub git : Git

unfoldable pub git_status : GitService → FilePath → Result GitStatus ProjectError
unfolding authorized_repository run require_success parse_status
git_status service requested = do
  repository ← authorized_repository service.system service.roots requested
  output ← run service.git repository status_arguments maximum_git_metadata_bytes
  require_success output
  stdout ← whole output
  parse_status stdout

abbrev pub worktree_arguments : List String
worktree_arguments = "worktree" ∷ "list" ∷ "--porcelain" ∷ "-z" ∷ []

unfoldable pub worktrees : GitService → FilePath → Result (List WorktreeInfo) ProjectError
unfolding authorized_repository run require_success parse_worktrees
worktrees service requested = do
  repository ← authorized_repository service.system service.roots requested
  output ← run service.git repository worktree_arguments maximum_git_metadata_bytes
  require_success output
  stdout ← whole output
  parse_worktrees stdout

pub data DiffScope : Type 0 where
  working_tree : DiffScope
  staged : DiffScope

abbrev pub cached : DiffScope → List String → List String
cached working_tree rest = rest
cached staged rest = "--cached" ∷ rest

abbrev pub diff_arguments : DiffScope → List String
diff_arguments scope =
    "-c"
    ∷ "core.quotepath=false"
    ∷ "diff"
    ∷ "--no-ext-diff"
    ∷ "--no-color"
    ∷ "--find-renames"
    ∷ cached scope ("--" ∷ [])

pub record GitDiff : Type 0 where
  pub text : List ℕ
  pub truncated : Bool
  pub contains_binary_changes : Bool

-- A diff that was cut off ends by being killed, which is no failure.
unfoldable pub diff_success : GitCommandOutput → Result (Unit {0}) ProjectError
unfolding require_success
diff_success output =
    if not output.success && not output.truncated then require_success output else ok tt

abbrev pub to_diff : List ℕ → Bool → GitDiff
unfolding contains_text
to_diff text truncated = record {
  text = text;
  truncated = truncated;
  contains_binary_changes =
      contains_text text (codes "Binary files ") || contains_text text (codes "GIT binary patch");
}

unfoldable pub diff : GitService → FilePath → DiffScope → ℕ → Result GitDiff ProjectError
unfolding authorized_repository run diff_success from_utf8_lossy contains_text
diff service requested scope maximum_bytes =
    if maximum_bytes == 0 || ltb maximum_diff_bytes maximum_bytes then err invalid_limit else do
      repository ← authorized_repository service.system service.roots requested
      output ← run service.git repository (diff_arguments scope) maximum_bytes
      diff_success output
      ok (to_diff (from_utf8_lossy output.stdout) output.truncated)

pub data BranchState : Type 0 where
  branch : List ℕ → BranchState
  unborn : List ℕ → BranchState
  detached : (commit : List ℕ) → BranchState

unfoldable pub trimmed_lossy : List ℕ → List ℕ
unfolding from_utf8_lossy trim
trimmed_lossy bytes = trim (from_utf8_lossy bytes)

-- `HEAD` names a branch, which has a commit or has none yet.
unfoldable pub attached : Git → FilePath → List ℕ → Result BranchState ProjectError
unfolding run
attached git repository name = do
  verified ← run git repository ("rev-parse" ∷ "--verify" ∷ "HEAD" ∷ []) maximum_git_stderr_bytes
  ok (if verified.success then branch name else unborn name)

unfoldable pub detached_head : Git → FilePath → List ℕ → Result BranchState ProjectError
unfolding run is_not_repository require_success trimmed_lossy
detached_head git repository stderr =
    if is_not_repository stderr then err not_git_repository else do
      output ←
          run git repository ("rev-parse" ∷ "--short=12" ∷ "HEAD" ∷ []) maximum_git_stderr_bytes
      require_success output
      ok (detached (trimmed_lossy output.stdout))

unfoldable pub current_branch : GitService → FilePath → Result BranchState ProjectError
unfolding authorized_repository run attached detached_head trimmed_lossy
current_branch service requested = do
  repository ← authorized_repository service.system service.roots requested
  symbolic ←
      run service.git repository ("symbolic-ref" ∷ "--quiet" ∷ "--short" ∷ "HEAD" ∷ [])
        maximum_git_stderr_bytes
  if symbolic.success
      then attached service.git repository (trimmed_lossy symbolic.stdout)
      else detached_head service.git repository symbolic.stderr
