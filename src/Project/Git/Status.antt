-- ===== src/Project/Git/Status.antt =====
-- `parse_status` of crates/maestro-project/src/git.rs: `git status --porcelain=v2 -z`.
pub mod Format
pub mod RoundTrip
use maestro_app.Prelude.{
  ℕ, Bool, true, false, not, ◌||◌, Option, none, some, List, [], ◌∷◌, ◌++◌, if◌then◌else◌, ◌==◌,
  length, drop, Result, ok, err, ◌>>=◌, split, splitn, starts_with_bytes, from_utf8_lossy,
}
use maestro_app.Project.Paths.{ProjectError, malformed_git_output}

-- The text of a path for display, by its code points.
pub record GitPath : Type 0 where
  pub bytes : List ℕ
  pub display : List ℕ

unfoldable pub from_bytes : List ℕ → GitPath
unfolding from_utf8_lossy
from_bytes bytes = record { bytes = bytes; display = from_utf8_lossy bytes }

pub data GitStatusKind : Type 0 where
  ordinary : GitStatusKind
  renamed_or_copied : GitStatusKind
  unmerged : GitStatusKind
  untracked : GitStatusKind
  ignored : GitStatusKind

pub record GitStatusEntry : Type 0 where
  pub path : GitPath
  pub original_path : Option GitPath
  pub index_status : ℕ
  pub worktree_status : ℕ
  pub kind : GitStatusKind

-- The two characters of a status and a path that is not empty.
unfoldable pub status_entry :
    List ℕ → List ℕ → Option GitPath → GitStatusKind → Result GitStatusEntry ProjectError
unfolding from_bytes
status_entry (index_status ∷ worktree_status ∷ []) (b ∷ path) original_path kind = ok record {
  path = from_bytes (b ∷ path);
  original_path = original_path;
  index_status = index_status;
  worktree_status = worktree_status;
  kind = kind;
}
status_entry status path original_path kind = err malformed_git_output

abbrev pub space : ℕ
space = b' '

unfoldable pub ordinary_fields : List (List ℕ) → Result GitStatusEntry ProjectError
unfolding status_entry
ordinary_fields (f0 ∷ f1 ∷ f2 ∷ f3 ∷ f4 ∷ f5 ∷ f6 ∷ f7 ∷ f8 ∷ []) = status_entry f1 f8 none ordinary
ordinary_fields fields = err malformed_git_output

unfoldable pub parse_ordinary : List ℕ → Result GitStatusEntry ProjectError
unfolding ordinary_fields splitn
parse_ordinary record_bytes = ordinary_fields (splitn 9 space record_bytes)

unfoldable pub rename_fields : List (List ℕ) → List ℕ → Result GitStatusEntry ProjectError
unfolding status_entry from_bytes
rename_fields (f0 ∷ f1 ∷ f2 ∷ f3 ∷ f4 ∷ f5 ∷ f6 ∷ f7 ∷ f8 ∷ f9 ∷ []) (b ∷ original) =
    status_entry f1 f9 (some (from_bytes (b ∷ original))) renamed_or_copied
rename_fields fields original = err malformed_git_output

unfoldable pub parse_rename : List ℕ → List ℕ → Result GitStatusEntry ProjectError
unfolding rename_fields splitn
parse_rename record_bytes original = rename_fields (splitn 10 space record_bytes) original

unfoldable pub unmerged_fields : List (List ℕ) → Result GitStatusEntry ProjectError
unfolding status_entry
unmerged_fields (f0 ∷ f1 ∷ f2 ∷ f3 ∷ f4 ∷ f5 ∷ f6 ∷ f7 ∷ f8 ∷ f9 ∷ f10 ∷ []) =
    status_entry f1 f10 none unmerged
unmerged_fields fields = err malformed_git_output

unfoldable pub parse_unmerged : List ℕ → Result GitStatusEntry ProjectError
unfolding unmerged_fields splitn
parse_unmerged record_bytes = unmerged_fields (splitn 11 space record_bytes)

unfoldable pub parse_simple : List ℕ → GitStatusKind → ℕ → Result GitStatusEntry ProjectError
unfolding from_bytes
parse_simple (c ∷ separator ∷ b ∷ path) kind status = ok record {
  path = from_bytes (b ∷ path);
  original_path = none;
  index_status = status;
  worktree_status = status;
  kind = kind;
}
parse_simple record_bytes kind status = err malformed_git_output

-- What the loop does with a record: pass it over, add an entry, or take the next one with it.
pub data Parsed : Type 0 where
  skipped : Parsed
  entry : Result GitStatusEntry ProjectError → Parsed
  with_original : Parsed

unfoldable pub parse_record : List ℕ → Parsed
unfolding starts_with_bytes parse_ordinary parse_unmerged parse_simple
parse_record [] = skipped
parse_record (c ∷ rest) =
    if starts_with_bytes (c ∷ rest) (b'#' ∷ b' ' ∷ [])
    then skipped
    else if c == b'1'
    then entry (parse_ordinary (c ∷ rest))
    else if c == b'2'
    then with_original
    else if c == b'u'
    then entry (parse_unmerged (c ∷ rest))
    else if c == b'?'
    then entry (parse_simple (c ∷ rest) untracked b'?')
    else if c == b'!'
    then entry (parse_simple (c ∷ rest) ignored b'!')
    else entry (err malformed_git_output)

abbrev pub with_entry :
    Result GitStatusEntry ProjectError
    → Result (List GitStatusEntry) ProjectError
    → Result (List GitStatusEntry) ProjectError
with_entry first rest = do parsed ← first; entries ← rest; ok (parsed ∷ entries)

-- The loop over the records. A rename that was read waits for its original path.
unfoldable pub parse_records :
    Option (List ℕ) → List (List ℕ) → Result (List GitStatusEntry) ProjectError
unfolding parse_record parse_rename
parse_records none [] = ok []
parse_records (some renamed) [] = err malformed_git_output
parse_records (some renamed) (original ∷ records) =
    with_entry (parse_rename renamed original) (parse_records none records)
parse_records none (next ∷ records) = elim (parse_record next) [
  | skipped ↦ parse_records none records
  | entry parsed ↦ with_entry parsed (parse_records none records)
  | with_original ↦ parse_records (some next) records
]

pub record GitStatus : Type 0 where
  pub entries : List GitStatusEntry

abbrev pub to_status : Result (List GitStatusEntry) ProjectError → Result GitStatus ProjectError
to_status (err failure) = err failure
to_status (ok entries) = ok record { entries = entries }

unfoldable pub parse_status : List ℕ → Result GitStatus ProjectError
unfolding parse_records split
parse_status bytes = to_status (parse_records none (split 0 bytes))

unfoldable pub is_clean : GitStatus → Bool
is_clean status = length status.entries == 0
