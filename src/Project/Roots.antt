-- ===== src/Project/Roots.antt =====
-- `WorkspaceRoots` of crates/maestro-project/src/auth.rs: the canonical roots of a project. The
-- file system is a parameter.
pub mod Apart
use maestro_app.Prelude.{
  ℕ, ◌+◌, ◌/◌, ◌%◌, ◌^◌, min, max, Bool, true, false, not, ◌&&◌, ◌||◌, Option, none, some, List, [],
  ◌∷◌, if◌then◌else◌, ◌==◌, any, Result, ok, err, ◌>>=◌, ◌>>◌, nat_order, list_order, sort_by_key,
}
use maestro_app.Project.Paths.{
  ProjectError, empty_roots, root_not_absolute, root_unavailable, root_not_directory,
  root_unreadable, duplicate_root, nested_roots, io, FilePath, is_absolute, normalize_absolute,
  path_key, path_eq, starts_with,
}

pub record Metadata : Type 0 where
  pub is_dir : Bool
  pub mode : ℕ

-- What the operating system answers: a directory that it opens is known by a handle.
pub record FileSystem : Type 0 where
  pub canonicalize : FilePath → Option FilePath
  pub metadata : FilePath → Option Metadata
  pub can_list : FilePath → Bool
  pub open_directory : FilePath → Option ℕ

pub record RootCapability : Type 0 where
  pub requested : FilePath
  pub canonical : FilePath
  pub directory : ℕ
  pub input_index : ℕ

-- The bits of `0o555`: what the owner, the group and the others may read and search.
unfoldable pub root_has_access : Metadata → Bool
root_has_access found = any (λ b. (found.mode / 2 ^ b) % 2 == 1) (0 ∷ 2 ∷ 3 ∷ 5 ∷ 6 ∷ 8 ∷ [])

module _ {ℓ} {A : Type ℓ} where
  abbrev pub ok_or : Option A → ProjectError → Result A ProjectError
  ok_or none failure = err failure
  ok_or (some value) failure = ok value

abbrev pub require : Bool → ProjectError → Result (Unit {0}) ProjectError
require true failure = ok tt
require false failure = err failure

unfoldable pub open_root : FileSystem → ℕ → FilePath → Result RootCapability ProjectError
unfolding is_absolute normalize_absolute root_has_access
open_root files index path = do
  require (is_absolute path) (root_not_absolute index)
  requested ← normalize_absolute path
  canonical ← ok_or (files.canonicalize path) (root_unavailable index)
  found ← ok_or (files.metadata canonical) (root_unavailable index)
  require found.is_dir (root_not_directory index)
  require (root_has_access found && files.can_list canonical) (root_unreadable index)
  directory ← ok_or (files.open_directory canonical) io
  ok record {
    requested = requested;
    canonical = canonical;
    directory = directory;
    input_index = index;
  }

unfoldable pub open_roots :
    FileSystem → ℕ → List FilePath → Result (List RootCapability) ProjectError
unfolding open_root
open_roots files index [] = ok []
open_roots files index (path ∷ paths) = do
  root ← open_root files index path
  rest ← open_roots files (index + 1) paths
  ok (root ∷ rest)

-- The body of the inner loop over two roots.
unfoldable pub check_pair : RootCapability → RootCapability → Result (Unit {0}) ProjectError
unfolding path_eq starts_with
check_pair left right =
    if path_eq left.canonical right.canonical
    then err (
        duplicate_root (min left.input_index right.input_index)
          (max left.input_index right.input_index))
    else if starts_with right.canonical left.canonical
    then err (nested_roots left.input_index right.input_index)
    else ok tt

unfoldable pub check_later : RootCapability → List RootCapability → Result (Unit {0}) ProjectError
unfolding check_pair
check_later left [] = ok tt
check_later left (right ∷ rest) = do check_pair left right; check_later left rest

unfoldable pub check_roots : List RootCapability → Result (Unit {0}) ProjectError
unfolding check_later
check_roots [] = ok tt
check_roots (left ∷ rest) = do check_later left rest; check_roots rest

abbrev pub canonical_key : RootCapability → List (List ℕ)
canonical_key root = path_key root.canonical

unfoldable pub check_sorted : List RootCapability → Result (List RootCapability) ProjectError
unfolding check_roots
check_sorted capabilities = do check_roots capabilities; ok capabilities

unfoldable pub new_roots : FileSystem → List FilePath → Result (List RootCapability) ProjectError
unfolding open_roots sort_by_key check_sorted
new_roots files [] = err empty_roots
new_roots files (first ∷ rest) = do
  capabilities ← open_roots files 0 (first ∷ rest)
  check_sorted (sort_by_key canonical_key capabilities)
