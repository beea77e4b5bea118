-- ===== src/Project/Paths.antt =====
-- Paths as the crate sees them, their components, and `normalize_absolute` of
-- crates/maestro-project/src/auth.rs. The paths are those of Unix, which have no prefix.
pub mod Normal
use maestro_app.Prelude.{
  ℕ, ◌≡◌, ◌↔◌, refl, ap, Bool, true, false, Option, none, some, List, [], ◌∷◌, ◌++◌, map, arith,
  if◌then◌else◌, leb, Result, ok, err, ◌>>=◌, lex_same, nat_order, list_order,
}

pub data ProjectError : Type 0 where
  empty_roots : ProjectError
  root_not_absolute : (index : ℕ) → ProjectError
  root_unavailable : (index : ℕ) → ProjectError
  root_not_directory : (index : ℕ) → ProjectError
  root_unreadable : (index : ℕ) → ProjectError
  duplicate_root : (first second : ℕ) → ProjectError
  nested_roots : (outer inner : ℕ) → ProjectError
  unauthorized_path : ProjectError
  unsafe_path : ProjectError
  not_directory : ProjectError
  not_regular_file : ProjectError
  binary_file : ProjectError
  invalid_utf8 : ProjectError
  file_too_large : (actual maximum : ℕ) → ProjectError
  file_changed_during_read : ProjectError
  save_conflict : ProjectError
  invalid_limit : ProjectError
  invalid_regex : ProjectError
  git_unavailable : ProjectError
  not_git_repository : ProjectError
  git_failed : ProjectError
  git_output_too_large : ProjectError
  malformed_git_output : ProjectError
  io : ProjectError

-- `Component`: a name is a sequence of bytes.
pub data PathComponent : Type 0 where
  root_dir : PathComponent
  cur_dir : PathComponent
  parent_dir : PathComponent
  normal : List ℕ → PathComponent

-- A path is what `components` yields of it.
abbrev pub FilePath : Type 0
FilePath = List PathComponent

-- `has_root`, which on Unix is `is_absolute`.
unfoldable pub is_absolute : FilePath → Bool
is_absolute (root_dir ∷ rest) = true
is_absolute path = false

-- `PathBuf::push`: an absolute path replaces what is there.
abbrev pub push_component : FilePath → PathComponent → FilePath
push_component path root_dir = root_dir ∷ []
push_component path component = path ++ component ∷ []

-- `Path::parent`: none for the empty path and for one that ends in its root.
unfoldable pub parent : FilePath → Option FilePath
parent [] = none
parent (root_dir ∷ []) = none
parent (component ∷ []) = some []
parent (component ∷ next ∷ rest) = elim (parent (next ∷ rest)) [
  | none ↦ none
  | some above ↦ some (component ∷ above)
]

unfoldable pub normalize_step : FilePath → PathComponent → Result FilePath ProjectError
unfolding parent
normalize_step normalized cur_dir = ok normalized
normalize_step normalized parent_dir = elim (parent normalized) [
  | none ↦ err unauthorized_path
  | some above ↦ ok above
]
normalize_step normalized component = ok (push_component normalized component)

unfoldable pub normalize_from : FilePath → FilePath → Result FilePath ProjectError
unfolding normalize_step
normalize_from normalized [] = ok normalized
normalize_from normalized (component ∷ path) = do
  next ← normalize_step normalized component
  normalize_from next path

abbrev pub only_absolute : FilePath → Result FilePath ProjectError
unfolding is_absolute
only_absolute normalized = if is_absolute normalized then ok normalized else err unauthorized_path

unfoldable pub normalize_absolute : FilePath → Result FilePath ProjectError
unfolding normalize_from is_absolute
normalize_absolute path = do normalized ← normalize_from [] path; only_absolute normalized

-- `Ord` of paths: component by component, in the order of the constructors, and names by bytes.
abbrev pub component_key : PathComponent → List ℕ
component_key root_dir = 0 ∷ []
component_key cur_dir = 1 ∷ []
component_key parent_dir = 2 ∷ []
component_key (normal name) = 3 ∷ name

abbrev pub path_key : FilePath → List (List ℕ)
path_key path = map component_key path

abbrev component_eq : PathComponent → PathComponent → Bool
component_eq a b = lex_same (component_key a) (component_key b)

unfoldable pub path_eq : FilePath → FilePath → Bool
path_eq a b = lex_same (path_key a) (path_key b)

-- `Path::strip_prefix`, and `Path::starts_with`, by whole components.
unfoldable pub strip_prefix : FilePath → FilePath → Option FilePath
strip_prefix path [] = some path
strip_prefix [] (component ∷ base) = none
strip_prefix (first ∷ path) (component ∷ base) =
    let rest = strip_prefix path base in if component_eq first component then rest else none

unfoldable pub starts_with : FilePath → FilePath → Bool
unfolding strip_prefix
starts_with path base = elim (strip_prefix path base) [ none ↦ false | some rest ↦ true ]

component_key_inj : (a b : PathComponent) → component_key a ≡ component_key b → a ≡ b
component_key_inj root_dir root_dir e = refl
component_key_inj cur_dir cur_dir e = refl
component_key_inj parent_dir parent_dir e = refl
component_key_inj (normal a) (normal b) e = ground arith
component_key_inj root_dir cur_dir e = ground arith
component_key_inj root_dir parent_dir e = ground arith
component_key_inj root_dir (normal b) e = ground arith
component_key_inj cur_dir root_dir e = ground arith
component_key_inj cur_dir parent_dir e = ground arith
component_key_inj cur_dir (normal b) e = ground arith
component_key_inj parent_dir root_dir e = ground arith
component_key_inj parent_dir cur_dir e = ground arith
component_key_inj parent_dir (normal b) e = ground arith
component_key_inj (normal a) root_dir e = ground arith
component_key_inj (normal a) cur_dir e = ground arith
component_key_inj (normal a) parent_dir e = ground arith

pub component_eq_iff : (a b : PathComponent) → (component_eq a b ≡ true) ↔ (a ≡ b)
component_eq_iff a b = (
  λ h. component_key_inj a b ((list_order.same_iff (component_key a) (component_key b)).0 h),
  λ e. (list_order.same_iff (component_key a) (component_key b)).1 (ap component_key e),
)

pub path_key_inj : (a b : FilePath) → path_key a ≡ path_key b → a ≡ b
path_key_inj [] [] e = refl
path_key_inj [] (b ∷ bs) e = ground arith
path_key_inj (a ∷ as_) [] e = ground arith
path_key_inj (a ∷ as_) (b ∷ bs) e = ground (arith, component_key_inj a b, path_key_inj as_ bs)

pub path_eq_iff : (a b : FilePath) → (path_eq a b ≡ true) ↔ (a ≡ b)
unfolding path_eq
path_eq_iff a b = (
  λ h. path_key_inj a b ((list_order.same_iff (path_key a) (path_key b)).0 h),
  λ e. (list_order.same_iff (path_key a) (path_key b)).1 (ap path_key e),
)

-- What is stripped is the rest.
pub strip_prefix_lem :
    (path base rest : FilePath) → strip_prefix path base ≡ some rest → path ≡ base ++ rest
unfolding strip_prefix
strip_prefix_lem path [] rest e = ground arith
strip_prefix_lem [] (c ∷ base) rest e = cc
strip_prefix_lem (a ∷ path) (c ∷ base) rest e =
    ground (arith, component_eq_iff a c, strip_prefix_lem path base rest)

pub strip_prefix-append : (base rest : FilePath) → strip_prefix (base ++ rest) base ≡ some rest
unfolding strip_prefix
strip_prefix-append [] rest = refl
strip_prefix-append (c ∷ base) rest =
    rw ((component_eq_iff c c).1 refl) (strip_prefix-append base rest)
