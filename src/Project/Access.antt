-- ===== src/Project/Access.antt =====
-- `authorize`, `open_directory` and `open_parent` of crates/maestro-project/src/auth.rs. What
-- `openat` answers, never following a symbolic link, is a parameter.
pub mod Confined
pub mod Covered
use maestro_app.Prelude.{
  ℕ, suc, Bool, true, false, ◌||◌, Option, none, some, List, [], ◌∷◌, ◌++◌, if◌then◌else◌, ltb,
  length, Result, ok, err, ◌>>=◌, ◌>>◌,
}
use maestro_app.Project.Paths.{
  ProjectError, unauthorized_path, unsafe_path, not_directory, not_regular_file, io, PathComponent,
  normal, FilePath, is_absolute, parent, normalize_absolute, strip_prefix, starts_with,
}
use maestro_app.Project.Roots.{RootCapability, ok_or, require}

pub record AuthorizedPath : Type 0 where
  pub root : RootCapability
  pub canonical : FilePath
  pub components : List (List ℕ)

-- The root that is found, the prefix of the two that matched, and its depth.
abbrev pub Matched : Type 0
Matched = RootCapability × FilePath × ℕ

abbrev pub is_deeper : ℕ → Option Matched → Bool
is_deeper depth none = true
is_deeper depth (some (root, prefix, matched_depth)) = ltb matched_depth depth

unfoldable pub consider : FilePath → RootCapability → FilePath → Option Matched → Option Matched
unfolding starts_with
consider normalized root prefix authorized_root =
    if starts_with normalized prefix
    then if is_deeper (length prefix) authorized_root
      then some (root, prefix, length prefix)
      else authorized_root
    else authorized_root

unfoldable pub match_roots : FilePath → List RootCapability → Option Matched → Option Matched
unfolding consider
match_roots normalized [] authorized_root = authorized_root
match_roots normalized (root ∷ roots) authorized_root = match_roots normalized roots (
    consider normalized root root.requested
      (consider normalized root root.canonical authorized_root))

-- The names of a relative path: `collect` of what `Component::Normal` holds.
unfoldable pub names : FilePath → Result (List (List ℕ)) ProjectError
names [] = ok []
names (normal name ∷ path) = do rest ← names path; ok (name ∷ rest)
names (component ∷ path) = err unsafe_path

-- `Path::join`: an absolute path replaces the base.
unfoldable pub join : FilePath → FilePath → FilePath
unfolding is_absolute
join base relative = if is_absolute relative then relative else base ++ relative

unfoldable pub authorize_under : FilePath → Matched → Result AuthorizedPath ProjectError
unfolding strip_prefix names join
authorize_under normalized (root, prefix, depth) = do
  relative ← ok_or (strip_prefix normalized prefix) unauthorized_path
  components ← names relative
  ok record { root = root; canonical = join root.canonical relative; components = components }

unfoldable pub authorize : List RootCapability → FilePath → Result AuthorizedPath ProjectError
unfolding is_absolute normalize_absolute match_roots authorize_under
authorize roots requested = do
  require (is_absolute requested) unauthorized_path
  normalized ← normalize_absolute requested
  matched ← ok_or (match_roots normalized roots none) unauthorized_path
  authorize_under normalized matched

pub data Errno : Type 0 where
  loop : Errno
  notdir : Errno
  other : Errno

-- `openat` of a directory below an open one, and whether a handle is a directory.
pub record Directories : Type 0 where
  pub openat : ℕ → List ℕ → Result ℕ Errno
  pub handle_is_dir : ℕ → Option Bool

abbrev pub map_open_error : Errno → ProjectError
map_open_error loop = unsafe_path
map_open_error notdir = not_directory
map_open_error other = io

abbrev pub map_err : Result ℕ Errno → Result ℕ ProjectError
map_err (err error) = err (map_open_error error)
map_err (ok directory) = ok directory

unfoldable pub open_chain : Directories → ℕ → List (List ℕ) → Result ℕ ProjectError
open_chain system directory [] = ok directory
open_chain system directory (component ∷ components) = do
  next ← map_err (system.openat directory component)
  open_chain system next components

pub record AuthorizedDirectory : Type 0 where
  pub canonical : FilePath
  pub file : ℕ

-- The name `.`, by which the root's own handle is opened again.
abbrev pub here : List ℕ
here = b'.' ∷ []

unfoldable pub open_directory :
    Directories → List RootCapability → FilePath → Result AuthorizedDirectory ProjectError
unfolding authorize open_chain
open_directory system roots requested = do
  authorized ← authorize roots requested
  directory ← map_err (system.openat authorized.root.directory here)
  file ← open_chain system directory authorized.components
  is_dir ← ok_or (system.handle_is_dir file) io
  require is_dir not_directory
  ok record { canonical = authorized.canonical; file = file }

-- `split_last`.
unfoldable pub split_last : List (List ℕ) → Option (List (List ℕ) × List ℕ)
split_last [] = none
split_last (name ∷ []) = some ([], name)
split_last (name ∷ next ∷ rest) = elim (split_last (next ∷ rest)) [
  | none ↦ none
  | some (front, last) ↦ some (name ∷ front, last)
]

unfoldable pub open_parent :
    Directories
    → List RootCapability
    → FilePath
    → Result (AuthorizedDirectory × List ℕ) ProjectError
unfolding authorize open_chain split_last parent
open_parent system roots requested = do
  authorized ← authorize roots requested
  parts ← ok_or (split_last authorized.components) not_regular_file
  directory ← map_err (system.openat authorized.root.directory here)
  file ← open_chain system directory parts.0
  parent_path ← ok_or (parent authorized.canonical) unauthorized_path
  ok (record { canonical = parent_path; file = file }, parts.1)
