-- ===== src/Project/Git/Worktrees.antt =====
-- `parse_worktrees` of crates/maestro-project/src/git.rs: `git worktree list --porcelain -z`.
pub mod Listed
use maestro_app.Prelude.{
  ℕ, Bool, true, false, Option, none, some, List, [], ◌∷◌, ◌++◌, if◌then◌else◌, Result, ok, err,
  ◌>>=◌, split, strip_bytes, from_utf8_lossy, lex_same, nat_order, codes,
}
use maestro_app.Project.Paths.{ProjectError, malformed_git_output}

-- A path is the bytes that git wrote; the texts are their characters.
pub record WorktreeInfo : Type 0 where
  pub path : List ℕ
  pub head : Option (List ℕ)
  pub branch : Option (List ℕ)
  pub detached : Bool
  pub bare : Bool
  pub locked_reason : Option (List ℕ)
  pub prunable_reason : Option (List ℕ)

module _ {ℓ} {A : Type ℓ} where
  abbrev pub unwrap_or : Option A → A → A
  unwrap_or none fallback = fallback
  unwrap_or (some value) fallback = value

abbrev pub text_unless_empty : List ℕ → Option (List ℕ)
text_unless_empty [] = none
text_unless_empty (b ∷ reason) = some (from_utf8_lossy (b ∷ reason))

unfoldable pub nonempty_reason : List ℕ → Option (List ℕ)
unfolding strip_bytes from_utf8_lossy
nonempty_reason reason = text_unless_empty (unwrap_or (strip_bytes reason (b' ' ∷ [])) reason)

abbrev pub started : List ℕ → WorktreeInfo
started path = record {
  path = path;
  head = none;
  branch = none;
  detached = false;
  bare = false;
  locked_reason = none;
  prunable_reason = none;
}

-- The fields of git's format, by the tests of the loop in their order.
pub data Field : Type 0 where
  blank : Field
  worktree : List ℕ → Field
  head : List ℕ → Field
  branch : List ℕ → Field
  detached : Field
  bare : Field
  locked : List ℕ → Field
  prunable : List ℕ → Field
  unknown : Field

abbrev otherwise : Option (List ℕ) → (List ℕ → Field) → Field → Field
otherwise none known next = next
otherwise (some rest) known next = known rest

unfoldable pub classify : List ℕ → Field
unfolding strip_bytes lex_same
classify [] = blank
classify (b ∷ field) = otherwise (strip_bytes (b ∷ field) (codes "worktree ")) worktree (
    otherwise (strip_bytes (b ∷ field) (codes "HEAD ")) head (
      otherwise (strip_bytes (b ∷ field) (codes "branch ")) branch (
        if lex_same (b ∷ field) (codes "detached")
        then detached
        else if lex_same (b ∷ field) (codes "bare")
        then bare
        else otherwise (strip_bytes (b ∷ field) (codes "locked")) locked
            (otherwise (strip_bytes (b ∷ field) (codes "prunable")) prunable unknown))))

-- `branch.strip_prefix("refs/heads/").unwrap_or(branch)`.
abbrev pub short_branch : List ℕ → List ℕ
short_branch name = unwrap_or (strip_bytes name (codes "refs/heads/")) name

-- A field that describes the current worktree.
unfoldable pub describe : WorktreeInfo → Field → Result WorktreeInfo ProjectError
unfolding from_utf8_lossy strip_bytes nonempty_reason
describe w (head commit) = ok (record w { head = some (from_utf8_lossy commit) })
describe w (branch name) = ok (record w { branch = some (from_utf8_lossy (short_branch name)) })
describe w detached = ok (record w { detached = true })
describe w bare = ok (record w { bare = true })
describe w (locked reason) = ok (record w { locked_reason = nonempty_reason reason })
describe w (prunable reason) = ok (record w { prunable_reason = nonempty_reason reason })
describe w field = err malformed_git_output

-- `current.take()` pushed, if there is one.
abbrev pub finish_current : Option WorktreeInfo → List WorktreeInfo → List WorktreeInfo
finish_current none worktrees = worktrees
finish_current (some w) worktrees = worktrees ++ w ∷ []

-- The worktrees found, and the one that is being read.
abbrev pub Reading : Type 0
Reading = List WorktreeInfo × Option WorktreeInfo

unfoldable pub read_field : Reading → Field → Result Reading ProjectError
unfolding describe
read_field (worktrees, current) blank = ok (finish_current current worktrees, none)
read_field (worktrees, current) (worktree path) =
    ok (finish_current current worktrees, some (started path))
read_field (worktrees, none) field = err malformed_git_output
read_field (worktrees, some w) field = do
  described ← describe w field
  ok (worktrees, some described)

unfoldable pub read_fields : Reading → List (List ℕ) → Result Reading ProjectError
unfolding read_field classify
read_fields reading [] = ok reading
read_fields reading (field ∷ fields) = do
  next ← read_field reading (classify field)
  read_fields next fields

abbrev pub some_worktree : List WorktreeInfo → Result (List WorktreeInfo) ProjectError
some_worktree [] = err malformed_git_output
some_worktree (w ∷ worktrees) = ok (w ∷ worktrees)

unfoldable pub parse_worktrees : List ℕ → Result (List WorktreeInfo) ProjectError
unfolding read_fields split
parse_worktrees bytes = do
  reading ← read_fields ([], none) (split 0 bytes)
  some_worktree (finish_current reading.1 reading.0)
