-- ===== src/Project/Git/Status/RoundTrip.antt =====
-- `parse_status` of crates/maestro-project/src/git.rs on what git writes.
use maestro_app.Prelude.{
  ℕ, suc, ◌≡◌, refl, ap, ◌∙◌, Option, none, some, List, [], ◌∷◌, ◌++◌, length, Result, ok, All,
  split, splitn, splitn-append, split-append, IsFree,
}
use maestro_app.Project.Paths.{ProjectError}
use maestro_app.Project.Git.Status.{
  from_bytes, untracked, ignored, GitStatusEntry, status_entry, space, ordinary_fields,
  parse_ordinary, rename_fields, parse_rename, unmerged_fields, parse_unmerged, parse_simple,
  skipped, entry, with_original, parse_record, with_entry, parse_records, to_status, parse_status,
}
use maestro_app.Project.Git.Status.Format.{
  StatusLine, header, changed, renamed, conflicted, unknown, excluded, render_fields, line_fields,
  line_path, line_original, line_text, original_text, render, IsNonempty, OriginalIsPath, IsLine,
  expected, expected_all,
}

splitn-render_fields :
    (fields : List (List ℕ)) (path : List ℕ)
    → All (IsFree space) fields
    → splitn (suc (length fields)) space (render_fields fields path) ≡ fields ++ path ∷ []
unfolding splitn
splitn-render_fields [] path h = refl
splitn-render_fields (field ∷ fields) path h =
    splitn-append (length fields) space field (render_fields fields path) h.0
    ∙ ap (◌∷◌ field) (splitn-render_fields fields path h.1)

-- What follows a line is parsed as it is alone.
abbrev after_line : List GitStatusEntry → List (List ℕ) → Result (List GitStatusEntry) ProjectError
after_line [] records = parse_records none records
after_line (found ∷ none_left) records = with_entry (ok found) (parse_records none records)

abbrev original_record : Option (List ℕ) → List (List ℕ) → List (List ℕ)
original_record none records = records
original_record (some original) records = original ∷ records

abbrev line_records : StatusLine → List (List ℕ) → List (List ℕ)
line_records line records = line_text line ∷ original_record (line_original line) records

splitn_fields :
    (count : ℕ) (fields : List (List ℕ)) (path : List ℕ)
    → count ≡ suc (length fields)
    → All (IsFree space) fields
    → splitn count space (render_fields fields path) ≡ fields ++ path ∷ []
splitn_fields count fields path e h = rw e (splitn-render_fields fields path h)

-- One step of the loop, by what the record is.
step_skipped :
    (next : List ℕ) (records : List (List ℕ))
    → parse_record next ≡ skipped
    → parse_records none (next ∷ records) ≡ parse_records none records
unfolding parse_records
step_skipped next records e = rw (e, parse_records) refl

step_entry :
    (next : List ℕ) (records : List (List ℕ)) (found : GitStatusEntry)
    → parse_record next ≡ entry (ok found)
    → parse_records none (next ∷ records) ≡ with_entry (ok found) (parse_records none records)
unfolding parse_records
step_entry next records found e = rw (e, parse_records) refl

step_original :
    (next original : List ℕ) (records : List (List ℕ)) (found : GitStatusEntry)
    → parse_record next ≡ with_original
    → parse_rename next original ≡ ok found
    → parse_records none (next ∷ original ∷ records)
      ≡ with_entry (ok found) (parse_records none records)
unfolding parse_records
step_original next original records found e r = rw (e, parse_records, r) refl

ordinary_record :
    (rest : List ℕ)
    → parse_record (b'1' ∷ space ∷ rest)
      ≡ entry (ordinary_fields (splitn 9 space (b'1' ∷ space ∷ rest)))
unfolding parse_record parse_ordinary
ordinary_record rest = refl

unmerged_record :
    (rest : List ℕ)
    → parse_record (b'u' ∷ space ∷ rest)
      ≡ entry (unmerged_fields (splitn 11 space (b'u' ∷ space ∷ rest)))
unfolding parse_record parse_unmerged
unmerged_record rest = refl

rename_record : (rest : List ℕ) → parse_record (b'2' ∷ space ∷ rest) ≡ with_original
unfolding parse_record
rename_record rest = refl

rename_split :
    (text original : List ℕ)
    → parse_rename text original ≡ rename_fields (splitn 10 space text) original
unfolding parse_rename
rename_split text original = refl

header_skipped : (text : List ℕ) → parse_record (line_text (header text)) ≡ skipped
unfolding parse_record
header_skipped text = refl

unknown_record :
    (b : ℕ) (path : List ℕ)
    → parse_record (b'?' ∷ space ∷ b ∷ path)
      ≡ entry (parse_simple (b'?' ∷ space ∷ b ∷ path) untracked b'?')
unfolding parse_record
unknown_record b path = refl

excluded_record :
    (b : ℕ) (path : List ℕ)
    → parse_record (b'!' ∷ space ∷ b ∷ path)
      ≡ entry (parse_simple (b'!' ∷ space ∷ b ∷ path) ignored b'!')
unfolding parse_record
excluded_record b path = refl

empty_output : parse_records none (split 0 []) ≡ ok []
unfolding parse_records split
empty_output = refl

split_original :
    (original : Option (List ℕ)) (rest : List ℕ)
    → OriginalIsPath original
    → split 0 (original_text original rest) ≡ original_record original (split 0 rest)
split_original none rest h = refl
split_original (some original) rest h = split-append 0 original rest h.1

parse_records-line :
    (line : StatusLine) (records : List (List ℕ))
    → All (IsFree space) (line_fields line)
    → IsNonempty (line_path line)
    → OriginalIsPath (line_original line)
    → parse_records none (line_records line records) ≡ after_line (expected line) records
unfolding from_bytes status_entry ordinary_fields rename_fields unmerged_fields parse_simple
parse_records-line (header text) records f p o =
    step_skipped (line_text (header text)) records (header_skipped text)
parse_records-line (changed x y m1 m2 m3 m4 m5 m6 []) records f p o = absurd p
parse_records-line (changed x y m1 m2 m3 m4 m5 m6 (b ∷ path)) records f p o =
    let line = changed x y m1 m2 m3 m4 m5 m6 (b ∷ path) in
    step_entry (line_text line) records _ (
      ordinary_record _
      ∙ ap (λ fields. entry (ordinary_fields fields))
          (splitn_fields 9 (line_fields line) (b ∷ path) refl f))
parse_records-line (renamed x y m1 m2 m3 m4 m5 m6 m7 [] original) records f p o = absurd p
parse_records-line (renamed x y m1 m2 m3 m4 m5 m6 m7 (b ∷ path) []) records f p o = absurd o.0
parse_records-line (renamed x y m1 m2 m3 m4 m5 m6 m7 (b ∷ path) (c ∷ original)) records f p o =
    let line = renamed x y m1 m2 m3 m4 m5 m6 m7 (b ∷ path) (c ∷ original) in
    step_original (line_text line) (c ∷ original) records _ (rename_record _) (
      rename_split (line_text line) (c ∷ original)
      ∙ ap (λ fields. rename_fields fields (c ∷ original))
          (splitn_fields 10 (line_fields line) (b ∷ path) refl f))
parse_records-line (conflicted x y m1 m2 m3 m4 m5 m6 m7 m8 []) records f p o = absurd p
parse_records-line (conflicted x y m1 m2 m3 m4 m5 m6 m7 m8 (b ∷ path)) records f p o =
    let line = conflicted x y m1 m2 m3 m4 m5 m6 m7 m8 (b ∷ path) in
    step_entry (line_text line) records _ (
      unmerged_record _
      ∙ ap (λ fields. entry (unmerged_fields fields))
          (splitn_fields 11 (line_fields line) (b ∷ path) refl f))
parse_records-line (unknown []) records f p o = absurd p
parse_records-line (unknown (b ∷ path)) records f p o =
    step_entry (line_text (unknown (b ∷ path))) records _ (unknown_record b path)
parse_records-line (excluded []) records f p o = absurd p
parse_records-line (excluded (b ∷ path)) records f p o =
    step_entry (line_text (excluded (b ∷ path))) records _ (excluded_record b path)

after_line_ok :
    (line : StatusLine) (records : List (List ℕ)) (entries : List GitStatusEntry)
    → parse_records none records ≡ ok entries
    → after_line (expected line) records ≡ ok (expected line ++ entries)
after_line_ok (header text) records entries e = e
after_line_ok (changed x y m1 m2 m3 m4 m5 m6 path) records entries e = rw e refl
after_line_ok (renamed x y m1 m2 m3 m4 m5 m6 m7 path original) records entries e = rw e refl
after_line_ok (conflicted x y m1 m2 m3 m4 m5 m6 m7 m8 path) records entries e = rw e refl
after_line_ok (unknown path) records entries e = rw e refl
after_line_ok (excluded path) records entries e = rw e refl

split_line :
    (line : StatusLine) (rest : List ℕ)
    → IsLine line
    → split 0 (line_text line ++ 0 ∷ original_text (line_original line) rest)
      ≡ line_records line (split 0 rest)
split_line line rest h =
    split-append 0 (line_text line) _ h.0
    ∙ ap (◌∷◌ (line_text line)) (split_original (line_original line) rest h.3)

parse_records-render :
    (lines : List StatusLine)
    → All IsLine lines
    → parse_records none (split 0 (render lines)) ≡ ok (expected_all lines)
parse_records-render [] h = empty_output
parse_records-render (line ∷ lines) ((z, f, p, o), rest) =
    rw (split_line line (render lines) (z, f, p, o)) (
      parse_records-line line (split 0 (render lines)) f p o
      ∙ after_line_ok line (split 0 (render lines)) (expected_all lines)
          (parse_records-render lines rest))

-- The status that git writes is read back: for every list of lines in the porcelain format, with no
-- zero byte in a record, no space in a field before the path and no empty path, the parser
-- returns the entries of the lines, in order, with the paths as they are, spaces included.
pub parse_status-render :
    (lines : List StatusLine)
    → All IsLine lines
    → parse_status (render lines) ≡ ok (record { entries = expected_all lines })
unfolding parse_status
parse_status-render lines h = ap to_status (parse_records-render lines h)
