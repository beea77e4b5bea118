-- ===== src/Project/Git/Status/Format.antt =====
-- The porcelain format of `git status`, as git documents it, which `parse_status` of
-- crates/maestro-project/src/git.rs reads.
use maestro_app.Prelude.{ℕ, Option, none, some, List, [], ◌∷◌, ◌++◌, All, IsFree}
use maestro_app.Project.Git.Status.{
  GitPath, from_bytes, GitStatusKind, ordinary, renamed_or_copied, unmerged, untracked, ignored,
  GitStatusEntry, space,
}

-- A line of `git status --porcelain=v2`: a header, a changed, a renamed or an unmerged path with
-- its modes, objects and scores, and an untracked or an ignored path.
pub data StatusLine : Type 0 where
  header : List ℕ → StatusLine
  changed : (x y : ℕ) (m1 m2 m3 m4 m5 m6 path : List ℕ) → StatusLine
  renamed : (x y : ℕ) (m1 m2 m3 m4 m5 m6 m7 path original : List ℕ) → StatusLine
  conflicted : (x y : ℕ) (m1 m2 m3 m4 m5 m6 m7 m8 path : List ℕ) → StatusLine
  unknown : List ℕ → StatusLine
  excluded : List ℕ → StatusLine

-- Fields, each ended by a space, and what is left.
abbrev pub render_fields : List (List ℕ) → List ℕ → List ℕ
render_fields [] path = path
render_fields (field ∷ fields) path = field ++ space ∷ render_fields fields path

-- The fields before the path, and the text of a line up to its first zero byte.
abbrev pub line_fields : StatusLine → List (List ℕ)
line_fields (header text) = (b'#' ∷ []) ∷ []
line_fields (changed x y m1 m2 m3 m4 m5 m6 path) =
    (b'1' ∷ []) ∷ (x ∷ y ∷ []) ∷ m1 ∷ m2 ∷ m3 ∷ m4 ∷ m5 ∷ m6 ∷ []
line_fields (renamed x y m1 m2 m3 m4 m5 m6 m7 path original) =
    (b'2' ∷ []) ∷ (x ∷ y ∷ []) ∷ m1 ∷ m2 ∷ m3 ∷ m4 ∷ m5 ∷ m6 ∷ m7 ∷ []
line_fields (conflicted x y m1 m2 m3 m4 m5 m6 m7 m8 path) =
    (b'u' ∷ []) ∷ (x ∷ y ∷ []) ∷ m1 ∷ m2 ∷ m3 ∷ m4 ∷ m5 ∷ m6 ∷ m7 ∷ m8 ∷ []
line_fields (unknown path) = (b'?' ∷ []) ∷ []
line_fields (excluded path) = (b'!' ∷ []) ∷ []

abbrev pub line_path : StatusLine → List ℕ
line_path (header text) = text
line_path (changed x y m1 m2 m3 m4 m5 m6 path) = path
line_path (renamed x y m1 m2 m3 m4 m5 m6 m7 path original) = path
line_path (conflicted x y m1 m2 m3 m4 m5 m6 m7 m8 path) = path
line_path (unknown path) = path
line_path (excluded path) = path

-- What a rename writes after its own record.
abbrev pub line_original : StatusLine → Option (List ℕ)
line_original (renamed x y m1 m2 m3 m4 m5 m6 m7 path original) = some original
line_original line = none

abbrev pub line_text : StatusLine → List ℕ
line_text line = render_fields (line_fields line) (line_path line)

abbrev pub original_text : Option (List ℕ) → List ℕ → List ℕ
original_text none rest = rest
original_text (some original) rest = original ++ 0 ∷ rest

-- The output of git, each record ended by a zero byte.
abbrev pub render : List StatusLine → List ℕ
render [] = []
render (line ∷ lines) = line_text line ++ 0 ∷ original_text (line_original line) (render lines)

abbrev pub IsNonempty : List ℕ → Type 0
IsNonempty [] = ⊥
IsNonempty (b ∷ bytes) = Unit

abbrev pub OriginalIsPath : Option (List ℕ) → Type 0
OriginalIsPath none = Unit
OriginalIsPath (some original) = IsNonempty original × IsFree 0 original

-- No zero byte in a record, no space in a field, and no empty path.
abbrev pub IsLine : StatusLine → Type 0
IsLine line =
    IsFree 0 (line_text line)
    × All (IsFree space) (line_fields line)
    × IsNonempty (line_path line)
    × OriginalIsPath (line_original line)

abbrev pub listed : ℕ → ℕ → GitStatusKind → Option GitPath → List ℕ → List GitStatusEntry
listed x y kind original_path path =
    record {
      path = from_bytes path;
      original_path = original_path;
      index_status = x;
      worktree_status = y;
      kind = kind;
    }
    ∷ []

-- What the line stands for.
abbrev pub expected : StatusLine → List GitStatusEntry
expected (header text) = []
expected (changed x y m1 m2 m3 m4 m5 m6 path) = listed x y ordinary none path
expected (renamed x y m1 m2 m3 m4 m5 m6 m7 path original) =
    listed x y renamed_or_copied (some (from_bytes original)) path
expected (conflicted x y m1 m2 m3 m4 m5 m6 m7 m8 path) = listed x y unmerged none path
expected (unknown path) = listed b'?' b'?' untracked none path
expected (excluded path) = listed b'!' b'!' ignored none path

abbrev pub expected_all : List StatusLine → List GitStatusEntry
expected_all [] = []
expected_all (line ∷ lines) = expected line ++ expected_all lines
