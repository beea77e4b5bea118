-- ===== src/Examples/Git.antt =====
-- The output of Git (crates/maestro-project/src/git.rs) at concrete lines.
use maestro_app.Prelude.{
  ℕ, ◌≡◌, ◌⊎◌, ◌≤◌, ◌<◌, refl, arith, true, false, none, some, List, [], ◌∷◌, map, ok, All, any,
  ◌==◌, ltb, length, take, codes, lex_same, from_utf8_lossy, IsFree,
}
use maestro_app.Project.Paths.{root_dir, normal, FilePath}
use maestro_app.Project.Git.Status.{GitStatus, parse_status}
use maestro_app.Project.Git.Status.Format.{
  StatusLine, header, renamed, unknown, render, IsLine, expected_all, line_fields, line_text,
}
use maestro_app.Project.Git.Status.RoundTrip.{parse_status-render}
use maestro_app.Project.Git.Worktrees.{parse_worktrees}
use maestro_app.Project.Git.Worktrees.Listed
use maestro_app.Project.Git.Worktrees.Listed.{
  Listing, at_commit, on_branch, is_locked, is_bare, IsListing, attribute_text, described,
  parse_worktrees-render,
}
use maestro_app.Project.Git.Output.{
  GitCommandOutput, GitService, git_status, status_arguments, GitDiff, working_tree, diff,
  authorized_repository, maximum_diff_bytes,
}
use maestro_app.Project.Git.Output.Bounded.{Ran, asked, IsWhole, git_status-IsWhole, diff_bounded}

-- A path with a space in it, which was renamed, and one that is not tracked.
abbrev rename : StatusLine
rename =
    renamed b'R' b'.' (codes "N...") (codes "100644") (codes "100644") (codes "100644") (codes "aa")
      (codes "bb") (codes "R100") (codes "new name") (codes "old")

abbrev lines : List StatusLine
lines = header (codes "branch.head main") ∷ rename ∷ unknown (codes "notes") ∷ []

no_zero : (bytes : List ℕ) → any (λ b. b == 0) bytes ≡ false → IsFree 0 bytes
no_zero [] h = tt
no_zero (b ∷ bytes) h = (ground arith, no_zero bytes (ground arith))

no_space : (bytes : List ℕ) → any (λ b. b == b' ') bytes ≡ false → IsFree b' ' bytes
no_space [] h = tt
no_space (b ∷ bytes) h = (ground arith, no_space bytes (ground arith))

fields-IsFree :
    (fields : List (List ℕ))
    → any (λ field. any (λ b. b == b' ') field) fields ≡ false
    → All (IsFree b' ') fields
fields-IsFree [] h = tt
fields-IsFree (field ∷ fields) h =
    (no_space field (ground arith), fields-IsFree fields (ground arith))

abbrev title : StatusLine
title = header (codes "branch.head main")

abbrev notes : StatusLine
notes = unknown (codes "notes")

lines-IsLine : All IsLine lines
lines-IsLine = (
  (no_zero (line_text title) refl, fields-IsFree (line_fields title) refl, tt, tt),
  (
    (
      no_zero (line_text rename) refl,
      fields-IsFree (line_fields rename) refl,
      tt,
      (tt, no_zero (codes "old") refl),
    ),
    ((no_zero (line_text notes) refl, fields-IsFree (line_fields notes) refl, tt, tt), tt),
  ),
)

parse_status-render_example :
    parse_status (render lines) ≡ ok (record { entries = expected_all lines })
parse_status-render_example = parse_status-render lines lines-IsLine

abbrev main : Listing
main = record {
  path = codes "/work";
  attributes = at_commit (codes "aa") ∷ on_branch (codes "main") ∷ [];
}

abbrev locked : Listing
locked = record { path = codes "/other"; attributes = is_bare ∷ is_locked none ∷ [] }

listings-IsListing : All IsListing (main ∷ locked ∷ [])
listings-IsListing = (
  (
    no_zero (codes "worktree /work") refl,
    (
      (no_zero (attribute_text (at_commit (codes "aa"))) refl, tt),
      ((no_zero (attribute_text (on_branch (codes "main"))) refl, tt), tt),
    ),
  ),
  (
    (
      no_zero (codes "worktree /other") refl,
      (
        (no_zero (attribute_text (is_bare)) refl, tt),
        ((no_zero (attribute_text (is_locked none)) refl, tt), tt),
      ),
    ),
    tt,
  ),
)

parse_worktrees-render_example :
    parse_worktrees (Listed.render (main ∷ locked ∷ [])) ≡ ok (map described (main ∷ locked ∷ []))
parse_worktrees-render_example = parse_worktrees-render main (locked ∷ []) listings-IsListing

abbrev work : FilePath
work = root_dir ∷ normal (codes "work") ∷ []

abbrev written : List ℕ
written = render (unknown (codes "notes") ∷ [])

abbrev service : GitService
service = record {
  system = record {
    openat = λ directory component. ok directory;
    handle_is_dir = λ directory. some true;
  };
  roots = record { requested = work; canonical = work; directory = 3; input_index = 0 } ∷ [];
  git = λ repository arguments.
      some (record { stdout = ok written; stderr = ok []; success = λ killed. some true });
}

abbrev status : GitStatus
status = record { entries = expected_all (unknown (codes "notes") ∷ []) }

status_found : git_status service work ≡ ok status
unfolding git_status lex_same
status_found = refl

git_status-IsWhole_example :
    (repository : FilePath) × (yielded : List ℕ) × (authorized_repository service.system
        service.roots work
      ≡ ok repository)
    × IsWhole service repository status_arguments yielded
    × (parse_status yielded ≡ ok status)
git_status-IsWhole_example = git_status-IsWhole service work status status_found

-- Four bytes of the diff are asked for, and there are more.
abbrev cut : GitDiff
cut = record { text = codes "? no"; truncated = true; contains_binary_changes = false }

diff_found : diff service work working_tree 4 ≡ ok cut
unfolding diff lex_same
diff_found = refl

diff_bounded_example :
    (repository : FilePath) × (yielded : List ℕ) × (authorized_repository service.system
        service.roots work
      ≡ ok repository)
    × (output : GitCommandOutput) × Ran service.git repository (asked working_tree) 4 output yielded
    × ((output.success ≡ true) ⊎ (output.truncated ≡ true))
    × (cut.text ≡ from_utf8_lossy (take 4 yielded))
    × (cut.truncated ≡ ltb 4 (length yielded))
    × ((0 < 4) × (4 ≤ maximum_diff_bytes))
diff_bounded_example = diff_bounded service work working_tree 4 cut diff_found
