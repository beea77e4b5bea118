-- ===== src/Examples/Project.antt =====
-- Workspace roots and authorized paths (crates/maestro-project/src/auth.rs) at concrete paths.
use maestro_app.Prelude.{
  ◌≡◌, refl, true, some, List, [], ◌∷◌, ok, err, All, Pairwise, codes, lex_before, lex_same, any,
}
use maestro_app.Project.Paths.{
  root_dir, cur_dir, parent_dir, normal, FilePath, nested_roots, unauthorized_path, is_absolute,
  normalize_absolute, starts_with,
}
use maestro_app.Project.Roots.{FileSystem, RootCapability, new_roots}
use maestro_app.Project.Roots.Apart.{IsApart, new_roots-IsApart}
use maestro_app.Project.Access.{AuthorizedPath, authorize}
use maestro_app.Project.Access.Confined.{Among, IsConfined, authorize-IsConfined}
use maestro_app.Project.Access.Covered.{covers, IsRooted, authorize-covers}

-- Every path is its own canonical form and a directory that all may read.
abbrev files : FileSystem
files = record {
  canonicalize = some;
  metadata = λ path. some (record { is_dir = true; mode = 493 });
  can_list = λ path. true;
  open_directory = λ path. some 3;
}

abbrev work : FilePath
work = root_dir ∷ normal (codes "work") ∷ []

abbrev app : FilePath
app = root_dir ∷ normal (codes "app") ∷ []

abbrev inner : FilePath
inner = root_dir ∷ normal (codes "work") ∷ normal (codes "src") ∷ []

abbrev work_root : RootCapability
work_root = record { requested = work; canonical = work; directory = 3; input_index = 0 }

abbrev app_root : RootCapability
app_root = record { requested = app; canonical = app; directory = 3; input_index = 1 }

abbrev roots : List RootCapability
roots = app_root ∷ work_root ∷ []

roots_found : new_roots files (work ∷ app ∷ []) ≡ ok roots
unfolding new_roots lex_same lex_before
roots_found = refl

nested_refused : new_roots files (inner ∷ work ∷ []) ≡ err (nested_roots 1 0)
unfolding new_roots lex_same lex_before
nested_refused = refl

new_roots-IsApart_example : Pairwise IsApart roots
new_roots-IsApart_example = new_roots-IsApart files (work ∷ app ∷ []) roots roots_found

-- `/work/./src/../main.rs`
abbrev requested : FilePath
requested =
    root_dir
    ∷ normal (codes "work")
    ∷ cur_dir
    ∷ normal (codes "src")
    ∷ parent_dir
    ∷ normal (codes "main.rs")
    ∷ []

abbrev found : AuthorizedPath
found = record {
  root = work_root;
  canonical = root_dir ∷ normal (codes "work") ∷ normal (codes "main.rs") ∷ [];
  components = codes "main.rs" ∷ [];
}

is_found : authorize roots requested ≡ ok found
unfolding authorize lex_same
is_found = refl

-- `/work/../etc` lies outside the roots.
climbing_refused :
    authorize roots (root_dir ∷ normal (codes "work") ∷ parent_dir ∷ normal (codes "etc") ∷ [])
    ≡ err unauthorized_path
unfolding authorize lex_same
climbing_refused = refl

authorize-IsConfined_example :
    (normalized : FilePath) × (root : RootCapability) × (normalize_absolute requested
      ≡ ok normalized)
    × Among root roots
    × IsConfined normalized root found
authorize-IsConfined_example = authorize-IsConfined roots requested found is_found

abbrev resolved : FilePath
resolved = root_dir ∷ normal (codes "work") ∷ normal (codes "main.rs") ∷ []

roots-IsRooted : All IsRooted roots
unfolding is_absolute
roots-IsRooted = ((refl, refl), ((refl, refl), tt))

is_resolved : normalize_absolute requested ≡ ok resolved
unfolding normalize_absolute
is_resolved = refl

starts_absolute : is_absolute requested ≡ true
unfolding is_absolute
starts_absolute = refl

is_covered : any (covers resolved) roots ≡ true
unfolding starts_with lex_same
is_covered = refl

authorize-covers_example : (a : AuthorizedPath) × (authorize roots requested ≡ ok a)
authorize-covers_example =
    authorize-covers roots requested resolved roots-IsRooted starts_absolute is_resolved is_covered
